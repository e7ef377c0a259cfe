-- ===== src/IpLimiter/Tables.antt =====
-- Facts about the limiter's table: its keys, and the oldest entry (internal/core/app.go).
use shiro_distributed_system.Common.{
  ℕ, ◌≤◌, ◌≡◌, ◌⊎◌, inl, inr, refl, Bool, false, none, some, [], ◌∷◌, Text, arith, ltb, text_key,
  length, text_eq, text_eq_iff, text_eq_refl, if◌then◌else◌, select, is_empty, All, Bool-cases, sym,
  ap, subst,
}
use shiro_distributed_system.Common.Assoc.{
  Map, lookup, insert, delete, lookup-insert, lookup-delete,
}
use native.Mathlib.Nat.{le_refl}
use shiro_distributed_system.Limiter.{Rate}
use shiro_distributed_system.IpLimiter.{IpLimiterEntry, oldest_from, oldest_ip}

module _ {V : Type 0} where
  -- No key is the empty text.
  abbrev pub Named : Map Text V → Type 0
  Named m = All (λ e. is_empty e.0 ≡ false) m

  pub insert-Named :
      (a : Text) (v : V) (m : Map Text V) → is_empty a ≡ false → Named m → Named (insert a v m)
  unfolding insert
  insert-Named a v [] h n = (h, tt)
  insert-Named a v ((b, w) ∷ m) h n = ground (arith, insert-Named a v m h n.1)

  pub delete-Named : (a : Text) (m : Map Text V) → Named m → Named (delete a m)
  unfolding delete
  delete-Named a [] n = tt
  delete-Named a ((b, w) ∷ m) n = ground (arith, delete-Named a m n.1)

  pub select-Named : (p : Text × V → Bool) (m : Map Text V) → Named m → Named (select p m)
  select-Named p [] n = tt
  select-Named p (e ∷ m) n = ground (arith, select-Named p m n.1)

  pub lookup-Named :
      (a : Text) (v : V) (m : Map Text V) → lookup a m ≡ some v → Named m → is_empty a ≡ false
  unfolding lookup
  lookup-Named a v [] h n = cc
  lookup-Named a v ((b, w) ∷ m) h n = ground (arith, text_eq_iff b a, lookup-Named a v m)

  -- A write to an address that is present keeps the size.
  pub length-insert_present :
      (a : Text) (v w : V) (m : Map Text V) → lookup a m ≡ some w → length (insert a v m) ≤ length m
  unfolding lookup insert
  length-insert_present a v w [] h = cc
  length-insert_present a v w ((b, u) ∷ m) h = ground (arith, length-insert_present a v w m)

  -- No two entries have the same key.
  unfoldable pub Distinct : Map Text V → Type 0
  Distinct [] = Unit
  Distinct ((a, v) ∷ m) = (lookup a m ≡ none) × Distinct m

  pub insert-Distinct : (a : Text) (v : V) (m : Map Text V) → Distinct m → Distinct (insert a v m)
  unfolding insert Distinct lookup
  insert-Distinct a v [] d = (refl, tt)
  insert-Distinct a v ((b, w) ∷ m) d =
      ground
        (arith, text_eq_iff b a, text_eq_iff a b, lookup-insert a b v m, insert-Distinct a v m d.1)

  pub delete-Distinct : (a : Text) (m : Map Text V) → Distinct m → Distinct (delete a m)
  unfolding delete Distinct
  delete-Distinct a [] d = tt
  delete-Distinct a ((b, w) ∷ m) d = ground (arith, lookup-delete a b m, delete-Distinct a m d.1)

  lookup-select-none :
      (p : Text × V → Bool) (a : Text) (m : Map Text V)
      → lookup a m ≡ none
      → lookup a (select p m) ≡ none
  unfolding lookup
  lookup-select-none p a [] h = refl
  lookup-select-none p a ((b, w) ∷ m) h = ground (arith, lookup-select-none p a m)

  pub select-Distinct : (p : Text × V → Bool) (m : Map Text V) → Distinct m → Distinct (select p m)
  unfolding Distinct
  select-Distinct p [] d = tt
  select-Distinct p ((b, w) ∷ m) d =
      ground (arith, lookup-select-none p b m d.0, select-Distinct p m d.1)

  pub lookup-cons_present :
      (a b : Text) (w : V) (m : Map Text V)
      → (v : V) × (lookup a m ≡ some v)
      → (v : V) × (lookup a ((b, w) ∷ m) ≡ some v)
  unfolding lookup
  lookup-cons_present a b w m (v, h) = elim (Bool-cases (text_eq b a)) [
    | inl same ↦ (w, ground arith)
    | inr other ↦ (v, ground arith)
  ]

  -- A selection shows an entry as it was, or not at all.
  pub lookup-select :
      (p : Text × V → Bool) (a : Text) (m : Map Text V)
      → Distinct m
      → (lookup a (select p m) ≡ lookup a m) ⊎ (lookup a (select p m) ≡ none)
  unfolding Distinct lookup
  lookup-select p a [] d = inl refl
  lookup-select p a ((b, w) ∷ m) d = elim (Bool-cases (p (b, w))) [
    | inl kept ↦ ground (arith, lookup-select p a m d.1)
    | inr gone ↦ ground (arith, text_eq_iff b a, lookup-select p a m d.1, lookup-select-none p a m)
  ]

module _ (rate : Rate) where
  abbrev Entries : Type 0
  Entries = Map Text (IpLimiterEntry rate)

  abbrev better : Text × ℕ → Text → IpLimiterEntry rate → Text × ℕ
  better best ip e = if ltb e.last_seen best.1 then (ip, e.last_seen) else best

  abbrev AllAfter : ℕ → Entries → Type 0
  AllAfter t m = All (λ x. t ≤ x.1.last_seen) m

  -- The loop ends with the best it began with, or with an entry of the rest.
  oldest_from-key :
      (best : Text × ℕ) (m : Entries)
      → let found = oldest_from rate best m in
        (found ≡ best) ⊎ ((e : IpLimiterEntry rate) × (lookup found.0 m ≡ some e))
  unfolding oldest_from lookup
  oldest_from-key best [] = inl refl
  oldest_from-key best ((ip, e) ∷ m) = elim (oldest_from-key (better best ip e) m) [
    | inl same ↦ elim (Bool-cases (ltb e.last_seen best.1)) [
      | inl older ↦ inr (e, ground (arith, text_eq_refl ip))
      | inr newer ↦ inl (ground arith)
    ]
    | inr later ↦ inr (lookup-cons_present _ ip e m later)
  ]

  pub oldest_ip-key :
      (a : Text) (f : IpLimiterEntry rate) (m : Entries)
      → (e : IpLimiterEntry rate) × (lookup (oldest_ip rate ((a, f) ∷ m)) ((a, f) ∷ m) ≡ some e)
  unfolding oldest_ip lookup
  oldest_ip-key a f m = elim (oldest_from-key (a, f.last_seen) m) [
    | inl same ↦ (f, ground (arith, text_eq_refl a))
    | inr later ↦ lookup-cons_present _ a f m later
  ]

  -- The loop's time is at most every time that it has seen.
  oldest_from-least :
      (best : Text × ℕ) (m : Entries)
      → ((oldest_from rate best m).1 ≤ best.1)
        × All (λ x. (oldest_from rate best m).1 ≤ x.1.last_seen) m
  unfolding oldest_from
  oldest_from-least best [] = (omega arith, tt)
  oldest_from-least best ((ip, e) ∷ m) = ground (arith, oldest_from-least (better best ip e) m)

  -- With distinct keys the loop's time is that of the entry with the loop's key.
  oldest_from-time :
      (best : Text × ℕ) (m : Entries)
      → Distinct m
      → let found = oldest_from rate best m in
        (found ≡ best)
        ⊎ ((e : IpLimiterEntry rate) × (lookup found.0 m ≡ some e) × (e.last_seen ≡ found.1))
  unfolding oldest_from lookup Distinct
  oldest_from-time best [] d = inl refl
  oldest_from-time best ((ip, e) ∷ m) d = elim (oldest_from-time (better best ip e) m d.1) [
    | inl same ↦ elim (Bool-cases (ltb e.last_seen best.1)) [
      | inl older ↦ inr (e, ground (arith, text_eq_refl ip), ground arith)
      | inr newer ↦ inl (ground arith)
    ]
    | inr (f, h, t) ↦
        inr (f, ground (arith, text_eq_iff ip (oldest_from rate (better best ip e) m).0), t)
  ]

  -- The oldest address of a table has an entry, and no entry was seen before it.
  pub oldest_ip-least :
      (a : Text) (f : IpLimiterEntry rate) (m : Entries)
      → Distinct ((a, f) ∷ m)
      → (e : IpLimiterEntry rate) × (lookup (oldest_ip rate ((a, f) ∷ m)) ((a, f) ∷ m) ≡ some e)
        × All (λ x. e.last_seen ≤ x.1.last_seen) ((a, f) ∷ m)
  unfolding oldest_ip lookup Distinct
  oldest_ip-least a f m d =
      let least = oldest_from-least (a, f.last_seen) m in
      elim (oldest_from-time (a, f.last_seen) m d.1) [
        | inl same ↦ (
          f,
          ground (arith, text_eq_refl a),
          (le_refl f.last_seen, subst (λ t. AllAfter t m) (ap (λ p. p.1) same) least.1),
        )
        | inr (e, h, t) ↦ (
          e,
          ground (arith, text_eq_iff a (oldest_from rate (a, f.last_seen) m).0),
          (omega arith, subst (λ t. AllAfter t m) (sym t) least.1),
        )
      ]
