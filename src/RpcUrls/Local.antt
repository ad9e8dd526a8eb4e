-- ===== src/RpcUrls/Local.antt =====
-- The host names that isLocalRpcUrl of packages/backend/src/services/blockchain.ts takes for local.
use vpp_blockchain.Base.{
  ◌≡◌, refl, ap, ◌↔◌, ◌⊎◌, inl, inr, true, false, ◌||◌, Option, some, List, [], ◌∷◌, ◌++◌, arith,
  Bool-cases, Option-cases, Text, text_eq, text_eq_iff, text_eq_refl, codes, All,
}
use vpp_blockchain.RpcUrls.{ends_with, is_local_rpc_url, some_local}

-- A host of this machine, or one in the domain `.local`.
abbrev pub IsLocalHost : Text → Type 0
IsLocalHost host =
    (host ≡ codes "localhost")
    ⊎ (host ≡ codes "127.0.0.1")
    ⊎ (host ≡ codes "::1")
    ⊎ ((name : Text) × (host ≡ name ++ codes ".local"))

abbrev pub IsLocal : (Text → Option Text) → Text → Type 0
IsLocal hostname url = (host : Text) × (hostname url ≡ some host) × IsLocalHost host

ends_with_name :
    (s suffix : Text) → ends_with s suffix ≡ true → (name : Text) × (s ≡ name ++ suffix)
unfolding ends_with
ends_with_name [] suffix h = ([], (text_eq_iff [] suffix).0 h)
ends_with_name (c ∷ s) suffix h = elim (Bool-cases (text_eq (c ∷ s) suffix)) [
  | inl t ↦ ([], (text_eq_iff (c ∷ s) suffix).0 t)
  | inr f ↦
      let (name, e) = ends_with_name s suffix (ground (arith, h, f)) in
      (c ∷ name, ap (λ t. c ∷ t) e)
]

ends_with_self : (suffix : Text) → ends_with suffix suffix ≡ true
unfolding ends_with
ends_with_self [] = text_eq_refl []
ends_with_self (c ∷ s) = ground (arith, text_eq_refl (c ∷ s))

ends_with-append : (name suffix : Text) → ends_with (name ++ suffix) suffix ≡ true
unfolding ends_with
ends_with-append [] suffix = ends_with_self suffix
ends_with-append (c ∷ name) suffix = ground (arith, ends_with-append name suffix)

host_sound :
    (host : Text)
    → ((text_eq host (codes "localhost")
          || text_eq host (codes "127.0.0.1")
          || text_eq host (codes "::1")
          || ends_with host (codes ".local"))
        ≡ true)
    → IsLocalHost host
host_sound host h = elim (Bool-cases (text_eq host (codes "localhost"))) [
  | inl t ↦ inl ((text_eq_iff host _).0 t)
  | inr f ↦ elim (Bool-cases (text_eq host (codes "127.0.0.1"))) [
    | inl t ↦ inr (inl ((text_eq_iff host _).0 t))
    | inr g ↦ elim (Bool-cases (text_eq host (codes "::1"))) [
      | inl t ↦ inr (inr (inl ((text_eq_iff host _).0 t)))
      | inr k ↦ inr (inr (inr (ends_with_name host (codes ".local") (ground (arith, h, f, g, k)))))
    ]
  ]
]

host_complete :
    (host : Text)
    → IsLocalHost host
    → (text_eq host (codes "localhost")
        || text_eq host (codes "127.0.0.1")
        || text_eq host (codes "::1")
        || ends_with host (codes ".local"))
      ≡ true
host_complete host (inl q) = ground (arith, (text_eq_iff host (codes "localhost")).1 q)
host_complete host (inr (inl q)) = ground (arith, (text_eq_iff host (codes "127.0.0.1")).1 q)
host_complete host (inr (inr (inl q))) = ground (arith, (text_eq_iff host (codes "::1")).1 q)
host_complete host (inr (inr (inr (name, q)))) =
    let dotted : ends_with host (codes ".local") ≡ true =
      rw q (ends_with-append name (codes ".local")) in
    ground (arith, dotted)

module _ (hostname : Text → Option Text) where
  url_sound : (url : Text) → is_local_rpc_url hostname url ≡ true → IsLocal hostname url
  unfolding is_local_rpc_url
  url_sound url h = elim (Option-cases (hostname url)) [
    | inl e ↦ absurd (let bad = rw (e, is_local_rpc_url) at h in cc)
    | inr (host, e) ↦ (host, e, host_sound host (rw (e, is_local_rpc_url) at h))
  ]

  url_complete : (url : Text) → IsLocal hostname url → is_local_rpc_url hostname url ≡ true
  unfolding is_local_rpc_url
  url_complete url (host, e, p) = rw (e, is_local_rpc_url) (host_complete host p)

  some_local_sound :
      (us : List Text) → some_local hostname us ≡ false → All (λ u. IsLocal hostname u → ⊥) us
  unfolding some_local
  some_local_sound [] h = tt
  some_local_sound (u ∷ us) h = elim (Bool-cases (is_local_rpc_url hostname u)) [
    | inl t ↦ absurd (ground (arith, h, t))
    | inr f ↦ (λ l. let t = url_complete u l in cc, some_local_sound us (ground (arith, h, f)))
  ]

  some_local_complete :
      (us : List Text) → All (λ u. IsLocal hostname u → ⊥) us → some_local hostname us ≡ false
  unfolding some_local
  some_local_complete [] h = refl
  some_local_complete (u ∷ us) h = elim (Bool-cases (is_local_rpc_url hostname u)) [
    | inl t ↦ absurd (h.0 (url_sound u t))
    | inr f ↦ ground (arith, f, some_local_complete us h.1)
  ]

  pub some_local_iff :
      (us : List Text) → (some_local hostname us ≡ false) ↔ All (λ u. IsLocal hostname u → ⊥) us
  some_local_iff us = (some_local_sound us, some_local_complete us)
