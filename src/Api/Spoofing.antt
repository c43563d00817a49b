-- ===== src/Api/Spoofing.antt =====
-- internal/api/ratelimit.go: what a client can do to the address it is limited by.
use moan_subs.Prelude.{
  ℕ, ◌≡◌, refl, ap, ◌∙◌, Bool, true, false, not, ◌&&◌, ◌||◌, List, [], ◌∷◌, ◌++◌, arith, ◌==◌,
  if◌then◌else◌, any, Bool-cases, inl, inr, ◌⊎◌,
}
use moan_subs.Prelude.Text.{Text}
use moan_subs.Prelude.Unicode.{trim_space}
use moan_subs.Api.ClientIp.{split_commas, onto, or_else, walk, client_ip}

pub split_commas_some : (s : Text) → (t : Text) × (ts : List Text) × (split_commas s ≡ t ∷ ts)
unfolding split_commas
split_commas_some [] = ([], [], refl)
split_commas_some (c ∷ s) =
    let (t, ts, e) = split_commas_some s in
    elim (Bool-cases (c == b',')) [
      | inl comma ↦ ([], split_commas s, rw comma refl)
      | inr plain ↦ (c ∷ t, ts, rw (plain, e) refl)
    ]

split_commas-append : (s t : Text) → split_commas (s ++ b',' ∷ t) ≡ split_commas s ++ split_commas t
unfolding split_commas
split_commas-append [] t = refl
split_commas-append (c ∷ s) t = elim (Bool-cases (c == b',')) [
  | inl e ↦ rw e (ap (◌∷◌ []) (split_commas-append s t))
  | inr e ↦
      let (u, us, some_entry) = split_commas_some s in
      rw (e, split_commas-append s t, some_entry) refl
]

onto-append : {A : Type 0} (xs ys acc : List A) → onto (xs ++ ys) acc ≡ onto ys (onto xs acc)
onto-append [] ys acc = refl
onto-append (x ∷ xs) ys acc = onto-append xs ys (x ∷ acc)

onto_some :
    {A : Type 0} (xs : List A) (a : A) (acc : List A)
    → (b : A) × (bs : List A) × (onto xs (a ∷ acc) ≡ b ∷ bs)
onto_some [] a acc = (a, acc, refl)
onto_some (x ∷ xs) a acc = onto_some xs x (a ∷ acc)

module _ (is_ip : Text → Bool) (trusts_proxy : Text → Bool) where
  -- An entry that ends the walk: no IP address, or not one of a trusted network.
  abbrev pub ends : Text → Bool
  ends e = not (is_ip (trim_space e) && trusts_proxy (trim_space e))

  Agree : Text → List Text → List Text → Type 0
  Agree host xs ys =
      (last : Text) → walk is_ip trusts_proxy host last xs ≡ walk is_ip trusts_proxy host last ys

  Agree-behind :
      (host e : Text) (xs ys : List Text) → Agree host xs ys → Agree host (e ∷ xs) (e ∷ ys)
  unfolding Agree walk
  Agree-behind host e xs ys h last =
      ap
        (λ (r : Text).
          if not (is_ip (trim_space e))
          then host
          else if not (trusts_proxy (trim_space e))
          then trim_space e
          else r)
        (h (or_else (trim_space e) last))

  Agree-onto :
      (host : Text) (es xs ys : List Text) → Agree host xs ys → Agree host (onto es xs) (onto es ys)
  Agree-onto host [] xs ys h = h
  Agree-onto host (e ∷ es) xs ys h =
      Agree-onto host es (e ∷ xs) (e ∷ ys) (Agree-behind host e xs ys h)

  Agree-ended : (host e : Text) (xs ys : List Text) → ends e ≡ true → Agree host (e ∷ xs) (e ∷ ys)
  unfolding Agree walk
  Agree-ended host e xs ys h last = elim (Bool-cases (is_ip (trim_space e))) [
    | inl ip ↦
        let outside : trusts_proxy (trim_space e) ≡ false = ground arith in rw (ip, outside) refl
    | inr not_ip ↦ rw not_ip refl
  ]

  -- Whatever stands further left than an entry that ends the walk is not read.
  Agree-ended_onto :
      (entries : List Text) (host : Text) (xs ys : List Text)
      → any ends entries ≡ true
      → Agree host (onto entries xs) (onto entries ys)
  Agree-ended_onto [] host xs ys h = absurd (cc)
  Agree-ended_onto (e ∷ es) host xs ys h = elim (Bool-cases (ends e)) [
    | inl hit ↦ Agree-onto host es (e ∷ xs) (e ∷ ys) (Agree-ended host e xs ys hit)
    | inr miss ↦ Agree-ended_onto es host (e ∷ xs) (e ∷ ys) (rw miss at h)
  ]

  walk-forged :
      (host forged header : Text)
      → any ends (split_commas header) ≡ true
      → walk is_ip trusts_proxy host [] (onto (split_commas (forged ++ b',' ∷ header)) [])
        ≡ walk is_ip trusts_proxy host [] (onto (split_commas header) [])
  unfolding Agree
  walk-forged host forged header h =
      ap (λ (es : List Text). walk is_ip trusts_proxy host [] (onto es []))
        (split_commas-append forged header)
      ∙ ap (walk is_ip trusts_proxy host [])
          (onto-append (split_commas forged) (split_commas header) [])
      ∙ Agree-ended_onto (split_commas header) host (onto (split_commas forged) []) [] h []

  -- What a client writes in front of a header that has an entry from outside the trusted networks, or
  -- one that is no address, does not change the address that it is limited by.
  pub client_ip-forged :
      (any_trusted : Bool) (host forged : Text) (c : ℕ) (header : Text)
      → any ends (split_commas (c ∷ header)) ≡ true
      → client_ip is_ip trusts_proxy any_trusted host (forged ++ b',' ∷ c ∷ header)
        ≡ client_ip is_ip trusts_proxy any_trusted host (c ∷ header)
  unfolding client_ip
  client_ip-forged any_trusted host [] c header h =
      ap
        (λ (t : Text).
          if not any_trusted
          then host
          else if not (is_ip host) || not (trusts_proxy host)
          then host
          else t)
        (walk-forged host [] (c ∷ header) h)
  client_ip-forged any_trusted host (d ∷ forged) c header h =
      ap
        (λ (t : Text).
          if not any_trusted
          then host
          else if not (is_ip host) || not (trusts_proxy host)
          then host
          else t)
        (walk-forged host (d ∷ forged) (c ∷ header) h)

  -- The peer's host, or a text that is an IP address.
  abbrev pub IsAddress : Text → Text → Type 0
  IsAddress host t = (t ≡ host) ⊎ (is_ip t ≡ true)

  walk-entry :
      (host last e : Text) (es : List Text)
      → (is_ip (trim_space e) ≡ true
          → IsAddress host (walk is_ip trusts_proxy host (or_else (trim_space e) last) es))
      → IsAddress host (walk is_ip trusts_proxy host last (e ∷ es))
  unfolding walk
  walk-entry host last e es later = elim (Bool-cases (is_ip (trim_space e))) [
    | inl ip ↦ elim (Bool-cases (trusts_proxy (trim_space e))) [
      | inl inside ↦ rw (ip, inside) (later ip)
      | inr outside ↦ rw (ip, outside) (inr ip)
    ]
    | inr not_ip ↦ rw not_ip (inl refl)
  ]

  kept_last :
      (entry last : Text)
      → is_ip entry ≡ true
      → is_ip last ≡ true
      → is_ip (or_else entry last) ≡ true
  kept_last entry [] ip _ = ip
  kept_last entry (c ∷ s) _ h = h

  walk-IsAddress :
      (host last : Text) (entries : List Text)
      → is_ip last ≡ true
      → IsAddress host (walk is_ip trusts_proxy host last entries)
  unfolding walk
  walk-IsAddress host last [] h = inr h
  walk-IsAddress host last (e ∷ es) h = walk-entry host last e es (λ ip.
      walk-IsAddress host (or_else (trim_space e) last) es (kept_last (trim_space e) last ip h))

  walk-all :
      (host : Text) (entries : List Text)
      → ((e : Text) × (es : List Text) × (entries ≡ e ∷ es))
      → IsAddress host (walk is_ip trusts_proxy host [] entries)
  walk-all host entries (e, es, same) =
      rw same (walk-entry host [] e es (λ ip. walk-IsAddress host (trim_space e) es ip))

  if_cases :
      (any_trusted : Bool) (direct : Bool) {host t : Text}
      → IsAddress host t
      → IsAddress host (if not any_trusted then host else if direct then host else t)
  if_cases true true h = inl refl
  if_cases true false h = h
  if_cases false direct h = inl refl

  -- The address is the peer's host, or an entry of the header that is an IP address.
  pub client_ip-IsAddress :
      (any_trusted : Bool) (host header : Text)
      → IsAddress host (client_ip is_ip trusts_proxy any_trusted host header)
  unfolding client_ip
  client_ip-IsAddress any_trusted host [] = ground arith
  client_ip-IsAddress any_trusted host (c ∷ header) =
      let walked = walk-all host (onto (split_commas (c ∷ header)) []) (
        let (t, ts, e) = split_commas_some (c ∷ header) in
        let (u, us, e') = onto_some ts t [] in
        (u, us, ap (λ (es : List Text). onto es []) e ∙ e')) in
      if_cases any_trusted (not (is_ip host) || not (trusts_proxy host)) walked
