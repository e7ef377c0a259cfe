-- ===== src/Config/Rules.antt =====
-- What a configuration that was read and validated guarantees (internal/config/config.go).
use shiro_distributed_system.Common.{
  ◌≡◌, inl, inr, refl, Bool, true, false, Option, none, some, List, [], ◌∷◌, Text, ℤ, pos, negsuc,
  ◌≤ℤ◌, arith, leb_ℤ, ltb_ℤ, All, trim_space, text_key, Option-cases, Bool-cases, Key,
}
use shiro_distributed_system.Common.Assoc.{Map, insert}
use shiro_distributed_system.GoMax.{max}
use shiro_distributed_system.Config.{VersionRange, Config}
use shiro_distributed_system.Config.Parse.{
  split, split_pair, atoi, collect, range_of, version_entry, parse_schema_version_rules,
}
use shiro_distributed_system.Config.Validate.{checks, problems, error_of, validate}

problems-All : (cs : List (Bool × Text)) → problems cs ≡ [] → All (λ c. c.0 ≡ false) cs
unfolding problems
problems-All [] h = tt
problems-All ((true, message) ∷ cs) h = absurd (ground arith)
problems-All ((false, message) ∷ cs) h = (refl, problems-All cs h)

error_of-none : (messages : List Text) → error_of messages ≡ none → messages ≡ []
error_of-none [] h = refl
error_of-none (m ∷ messages) h = absurd (ground arith)

validate-All : (c : Config) → validate c ≡ none → All (λ p. p.0 ≡ false) (checks c)
unfolding validate
validate-All c h = problems-All (checks c) (error_of-none (problems (checks c)) h)

positive_floor : (z : ℤ) → leb_ℤ z (pos 0) ≡ false → max (pos 1) z ≡ z
unfolding max
positive_floor (pos n) h = ground arith
positive_floor (negsuc n) h = ground arith

backoff_order : (base most : ℤ) → ltb_ℤ most base ≡ false → max (pos 50) base ≤ℤ max (pos 200) most
unfolding max
backoff_order (pos b) (pos m) h = ground arith
backoff_order (pos b) (negsuc m) h = ground arith
backoff_order (negsuc b) (pos m) h = ground arith
backoff_order (negsuc b) (negsuc m) h = ground arith

-- The validated values that the application raises to 1 where it uses them.
abbrev pub floored : Config → List ℤ
floored c =
    c.http_read_timeout_ms ∷ c.http_read_header_timeout_ms ∷ c.http_write_timeout_ms
    ∷ c.http_idle_timeout_ms ∷ c.http_request_timeout_ms ∷ c.http_shutdown_timeout_ms
    ∷ c.max_concurrent_requests ∷ c.max_concurrent_publishes ∷ c.max_concurrent_queries
    ∷ c.outbox_quarantine_after ∷ c.rate_limit_rps ∷ c.rate_limit_burst ∷ []

-- For a configuration that `Validate` accepts, the application uses these timeouts, limits and rates
-- as they are configured: raising them to 1 changes nothing. And the bounds of the outbox's backoff,
-- raised to 50 and to 200 milliseconds, are still in order.
validate-floors :
    (c : Config)
    → validate c ≡ none
    → All (λ z. max (pos 1) z ≡ z) (floored c)
      × (max (pos 50) c.outbox_backoff_base_ms ≤ℤ max (pos 200) c.outbox_backoff_max_ms)
unfolding checks max
validate-floors c h =
    let (
      a0,
      (
        a1,
        (
          a2,
          (
            a3,
            (
              a4,
              (a5, (a6, (a7, (a8, (a9, (a10, (a11, (a12, (a13, (a14, (a15, (a16, rest)))))))))))),
            ),
          ),
        ),
      ),
    ) =
      validate-All c h in
    (
      (
        positive_floor _ a0,
        (
          positive_floor _ a1,
          (
            positive_floor _ a2,
            (
              positive_floor _ a3,
              (
                positive_floor _ a4,
                (
                  positive_floor _ a5,
                  (
                    positive_floor _ a6,
                    (
                      positive_floor _ a7,
                      (
                        positive_floor _ a8,
                        (positive_floor _ a13, (positive_floor _ a15, (positive_floor _ a16, tt))),
                      ),
                    ),
                  ),
                ),
              ),
            ),
          ),
        ),
      ),
      backoff_order c.outbox_backoff_base_ms c.outbox_backoff_max_ms a12,
    )

insert-All :
    {K V : Type 0} ⦃key : Key K⦄ (P : K × V → Type 0) (a : K) (v : V) (m : Map K V)
    → P (a, v)
    → All P m
    → All P (insert a v m)
unfolding insert
insert-All ⦃key = key⦄ P a v [] p h = (p, tt)
insert-All ⦃key = key⦄ P a v ((b, w) ∷ m) p h = elim (Bool-cases (key.beq b a)) [
  | inl same ↦ rw same (p, h.1)
  | inr other ↦ rw other (elim (Bool-cases (key.before a b)) [
    | inl first ↦ rw first (p, h)
    | inr later ↦ rw later (h.0, insert-All P a v m p h.1)
  ])
]

-- What every entry that is read has, the map has throughout.
collect-All :
    {V : Type 0} (P : Text × V → Type 0) (entry : Text → Option (Text × V))
    → ((text : Text) (e : Text × V) → entry text ≡ some e → P e)
    → (texts : List Text) (out : Map Text V) → All P out
    → All P (collect entry texts out)
unfolding collect
collect-All P entry good [] out h = h
collect-All P entry good (text ∷ texts) out h = elim (Option-cases (entry text)) [
  | inl e ↦ rw (e, collect) (collect-All P entry good texts out h)
  | inr ((k, v), e) ↦
      rw (e, collect)
        (collect-All P entry good texts (insert k v out)
          (insert-All P k v out (good text (k, v) e) h))
]

-- A range of versions that admits something.
abbrev pub IsRange : VersionRange → Type 0
IsRange r = (pos 1 ≤ℤ r.min) × (r.min ≤ℤ r.max)

range_of-IsRange : (low high : Option ℤ) (r : VersionRange) → range_of low high ≡ some r → IsRange r
unfolding range_of
range_of-IsRange none high r h = absurd (ground arith)
range_of-IsRange (some low) none r h = absurd (ground arith)
range_of-IsRange (some (pos l)) (some (pos m)) r h = ground arith
range_of-IsRange (some (pos l)) (some (negsuc m)) r h = ground arith
range_of-IsRange (some (negsuc l)) (some high) r h = absurd (ground arith)

version_entry-IsRange :
    (text : Text) (e : Text × VersionRange) → version_entry text ≡ some e → IsRange e.1
unfolding version_entry
version_entry-IsRange text e h = elim (Option-cases (split_pair b':' (trim_space text))) [
  | inl x ↦ absurd (ground arith)
  | inr ((evt, bounds), x) ↦ elim (Option-cases (split_pair b'-' (trim_space bounds))) [
    | inl y ↦ absurd (ground arith)
    | inr ((low, high), y) ↦
        let range = range_of (atoi (trim_space low)) (atoi (trim_space high)) in
        elim (Option-cases range) [
          | inl z ↦ absurd (ground arith)
          | inr (r, z) ↦
              ground (arith, range_of-IsRange (atoi (trim_space low)) (atoi (trim_space high)) r z)
        ]
  ]
]

-- Whatever the variable holds, every version rule that is read from it starts at 1 or above and does
-- not end before it starts.
pub parse_schema_version_rules-All :
    (text : Text) → All (λ e. IsRange e.1) (parse_schema_version_rules text)
unfolding parse_schema_version_rules
parse_schema_version_rules-All text =
    collect-All (λ e. IsRange e.1) version_entry version_entry-IsRange
      (split b',' (trim_space text)) [] tt
