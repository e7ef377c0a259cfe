-- ===== src/Middleware/Origins.antt =====
-- Which origins get which headers (internal/core/app.go).
use shiro_distributed_system.Common.{
  ◌≡◌, refl, ◌∙◌, Bool, true, false, ◌||◌, some, List, [], ◌∷◌, Text, codes, arith, is_empty,
  text_eq, trim_space, text_key,
}
use shiro_distributed_system.Common.Assoc.{lookup, lookup-insert, lookup-insert_self, insert}
use shiro_distributed_system.Config.{Config}
use shiro_distributed_system.Middleware.{Headers, is_allowed_origin, cors_headers}

-- Whether an entry of the list is `*`, but for space around it.
unfoldable pub has_wildcard : List Text → Bool
has_wildcard [] = false
has_wildcard (o ∷ rest) = text_eq (trim_space o) (codes "*") || has_wildcard rest

wildcard-not_empty : (o : Text) → text_eq o (codes "*") ≡ true → is_empty o ≡ false
unfolding text_eq
wildcard-not_empty [] h = cc
wildcard-not_empty (a ∷ s) h = refl

is_allowed_origin-wildcard :
    (origin : Text) (allowed : List Text)
    → has_wildcard allowed ≡ true
    → is_allowed_origin origin allowed ≡ true
unfolding is_allowed_origin has_wildcard
is_allowed_origin-wildcard origin [] h = h
is_allowed_origin-wildcard origin (o ∷ rest) h =
    ground (arith, h, wildcard-not_empty (trim_space o), is_allowed_origin-wildcard origin rest)

past : (a b v : Text) (h : Headers) → text_eq a b ≡ false → lookup b (insert a v h) ≡ lookup b h
past a b v h other = rw (lookup-insert a b v h, other) refl

-- With `*` among the allowed origins, every origin is sent back as allowed, together with the
-- permission to send credentials.
pub cors_headers-wildcard :
    (cfg : Config) (origin : Text) (h : Headers)
    → has_wildcard cfg.cors_allowed_origins ≡ true
    → is_empty origin ≡ false
    → (lookup (codes "Access-Control-Allow-Origin") (cors_headers cfg origin h) ≡ some origin)
      × (lookup (codes "Access-Control-Allow-Credentials") (cors_headers cfg origin h)
          ≡ some (codes "true"))
unfolding cors_headers text_eq
cors_headers-wildcard cfg origin h wildcard named =
    let allowed = is_allowed_origin-wildcard origin cfg.cors_allowed_origins wildcard in
    rw (named, allowed, cors_headers)
      (
        past (codes "Access-Control-Allow-Headers") (codes "Access-Control-Allow-Origin") _ _ refl
            ∙ past (codes "Access-Control-Allow-Methods") (codes "Access-Control-Allow-Origin") _ _
                refl
            ∙ past (codes "Access-Control-Allow-Credentials") (codes "Access-Control-Allow-Origin")
                _ _ refl
            ∙ past (codes "Vary") (codes "Access-Control-Allow-Origin") _ _ refl
            ∙ lookup-insert_self (codes "Access-Control-Allow-Origin") origin h,
        past (codes "Access-Control-Allow-Headers") (codes "Access-Control-Allow-Credentials") _ _
              refl
            ∙ past (codes "Access-Control-Allow-Methods") (codes "Access-Control-Allow-Credentials")
                _ _ refl
            ∙ lookup-insert_self (codes "Access-Control-Allow-Credentials") (codes "true") _,
      )
