-- ===== src/Cass/Connect/Hosts.antt =====
-- The port of the cluster (internal/modules/cassstore/module.go).
use shiro_distributed_system.Common.{
  ◌≡◌, refl, false, Option, some, List, [], ◌∷◌, ◌++◌, Text, ℤ, pos, is_empty, trim_space,
  Bool-cases, Option-cases, inl, inr,
}
use shiro_distributed_system.Config.Parse.{atoi}
use shiro_distributed_system.Cass.Connect.{normalize_from, normalize_hosts}

module _ (split_host_port : Text → Option (Text × Text)) where
  normalize_from-last :
      (hosts : List Text) (h name p : Text) (n port : ℤ)
      → is_empty (trim_space h) ≡ false
      → split_host_port (trim_space h) ≡ some (name, p)
      → atoi p ≡ some n
      → (normalize_from split_host_port (hosts ++ h ∷ []) port).1 ≡ n
  unfolding normalize_from
  normalize_from-last [] h name p n port present parts number = rw (present, parts, number) refl
  normalize_from-last (h' ∷ hosts) h name p n port present parts number =
      elim (Bool-cases (is_empty (trim_space h'))) [
        | inl bare ↦ rw bare (normalize_from-last hosts h name p n port present parts number)
        | inr named ↦ elim (Option-cases (split_host_port (trim_space h'))) [
          | inl whole ↦
              rw (named, whole) (normalize_from-last hosts h name p n port present parts number)
          | inr ((name', p'), parts') ↦
              rw (named, parts') (normalize_from-last hosts h name p n _ present parts number)
        ]
      ]

  -- One port serves all hosts, the last one that is given: whatever ports the hosts before it name, the
  -- cluster is dialled at the port of the last host that has one.
  normalize_hosts-last_port :
      (hosts : List Text) (h name p : Text) (n : ℤ)
      → is_empty (trim_space h) ≡ false
      → split_host_port (trim_space h) ≡ some (name, p)
      → atoi p ≡ some n
      → (normalize_hosts split_host_port (hosts ++ h ∷ [])).1 ≡ n
  unfolding normalize_hosts
  normalize_hosts-last_port hosts h name p n present parts number =
      normalize_from-last hosts h name p n (pos 9042) present parts number
