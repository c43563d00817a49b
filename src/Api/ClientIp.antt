-- ===== src/Api/ClientIp.antt =====
-- internal/api/ratelimit.go: clientIP, the address that a request is limited by. Package net is a
-- parameter: whether a text is an IP address, which of them a list of trusted networks contains, and
-- the host of a peer.
use moan_subs.Prelude.{ℕ, Bool, not, ◌||◌, List, [], ◌∷◌, ◌==◌, if◌then◌else◌}
use moan_subs.Prelude.Text.{Text}
use moan_subs.Prelude.Unicode.{trim_space}

-- strings.Split at a comma: the text before the first one, and the rest.
abbrev pub add_front : ℕ → List Text → List Text
add_front c [] = (c ∷ []) ∷ []
add_front c (t ∷ ts) = (c ∷ t) ∷ ts

unfoldable pub split_commas : Text → List Text
split_commas [] = [] ∷ []
split_commas (c ∷ s) =
    let rest = split_commas s in if c == b',' then [] ∷ rest else add_front c rest

abbrev pub onto : {A : Type 0} → List A → List A → List A
onto [] acc = acc
onto (x ∷ xs) acc = onto xs (x ∷ acc)

abbrev pub or_else : Text → Text → Text
or_else d [] = d
or_else d (c ∷ s) = c ∷ s

module _ (is_ip : Text → Bool) (trusts_proxy : Text → Bool) where
  -- The walk from the last entry to the first. `last` is the rightmost trusted one so far, empty before
  -- the first; the walk ends with it when every entry was trusted.
  unfoldable pub walk : Text → Text → List Text → Text
  walk host last [] = last
  walk host last (e ∷ entries) =
      let entry = trim_space e in
      let rest = walk host (or_else entry last) entries in
      if not (is_ip entry) then host else if not (trusts_proxy entry) then entry else rest

  -- clientIP, from the host of the peer, whether any network is trusted, and the header.
  unfoldable pub client_ip : Bool → Text → Text → Text
  client_ip any_trusted host header =
      if not any_trusted
      then host
      else (if not (is_ip host) || not (trusts_proxy host)
          then host
          else elim header [ [] ↦ host | c ∷ s ↦ walk host [] (onto (split_commas (c ∷ s)) []) ])
