-- ===== src/Examples/Accounts.antt =====
-- The theorems on accounts, sessions and passwords at concrete inputs.
use moan_subs.Prelude.{
  ℕ, ◌+◌, ◌-◌, ◌≤◌, ◌<◌, ◌≡◌, ◌↔◌, refl, true, false, List, [], ◌∷◌, none, some, arith, count, All,
  length, ◌==◌, replicate, map, ap,
}
use moan_subs.Prelude.Int.{pos}
use moan_subs.Prelude.Result.{ok}
use moan_subs.Prelude.Text.{Text, codes}
use moan_subs.Store.Table.{is_id}
use moan_subs.Store.Schema.{Db, Account, admin}
use moan_subs.Store.Votes.{new_vote}
use moan_subs.Store.Votes.Tallies.{IsTallied}
use moan_subs.Store.Tracks.{live_upload_of}
use moan_subs.Store.Accounts.{is_role, set_role, purge_account}
use moan_subs.Store.Accounts.Deletion.{delete_account}
use moan_subs.Store.Accounts.Erasure.{IsForgotten, delete_account-IsForgotten}
use moan_subs.Store.Accounts.Purge.{named_enabled, live_other, purge_account-Out}
use moan_subs.Store.Accounts.Tokens.{
  Gcm, encrypt_under_key, decrypt_under_key, decrypt-encrypt_under_key, hex_encode,
}
use moan_subs.Store.Accounts.Passwords.{Crypto, hash_password, verify_password, pbkdf2_key_bytes}
use moan_subs.Store.Accounts.Passwords.Verify.{NoDollar, IsBase64, verify-hash_password}
use moan_subs.Store.Sessions.{create_session, get_session_account}
use moan_subs.Store.Sessions.Lifetime.{
  SessionOp, login, logout, revoke, revoke_others, Spares, apply_ops, create_session-IsOpen,
}
use moan_subs.Examples.Data.{sample, member}

abbrev boss : ℕ → Account
boss id = set_role admin (member id false)

abbrev staff : Db
staff = record sample {
  accounts = boss 1 ∷ boss 2 ∷ [];
  votes = new_vote 10 1 (pos 1) none none 5 ∷ [];
  stashbox_keys =
      record {
        account_id = 1;
        endpoint = codes "https://stashdb.org/graphql";
        key_enc = codes "sealed";
        created_at = 3;
      }
      ∷ [];
}

delete_account-IsForgotten_example :
    (db' : Db) × (delete_account 1 staff ≡ ok db')
    × IsForgotten 1 db'
    × (IsTallied staff → IsTallied db')
    × (1 ≤ count (is_role admin) staff.accounts → 1 ≤ count (is_role admin) db'.accounts)
delete_account-IsForgotten_example =
    delete_account-IsForgotten 1 staff (boss 1) refl (omega arith) (λ h. omega arith)

purge_account-Out_example :
    let (db', n) = purge_account (λ t. t) 1 (codes "member") (codes "spam") 20 sample in
    (count (live_upload_of 1) db'.tracks ≡ 0)
    × (count (λ s. s.account_id == 1) db'.sessions ≡ 0)
    × (count (λ s. is_id 1 s.added_by) db'.stash_ids ≡ 0)
    × (count (named_enabled (λ t. t) (codes "member")) db'.accounts ≡ 0)
    × (count (live_other 1) db'.tracks ≡ count (live_other 1) sample.tracks)
    × (n ≡ count (live_upload_of 1) sample.tracks)
purge_account-Out_example = purge_account-Out (λ t. t) 1 (codes "member") (codes "spam") 20 sample

abbrev raw : ℕ → ℕ → List ℕ
raw n b = replicate n b

-- A cipher that adds nothing to the token.
abbrev open_gcm : Gcm
open_gcm = record {
  accepts = λ key. length key == 32;
  nonce_size = 12;
  seal = λ key nonce plain. plain;
  unseal = λ key nonce sealed. some sealed;
}

decrypt-encrypt_under_key_example :
    let key = raw 32 7 in
    let nonce = raw 12 1 in
    ((key ≡ [])
      → (encrypt_under_key open_gcm key nonce (codes "ab") ≡ some none)
        × ((enc : List ℕ) → decrypt_under_key open_gcm key enc ≡ none))
    × ((1 ≤ length key)
        → open_gcm.accepts key ≡ true
        → (enc : List ℕ) × (encrypt_under_key open_gcm key nonce (codes "ab") ≡ some (some enc))
          × (decrypt_under_key open_gcm key enc ≡ some (codes "ab")))
    × ((1 ≤ length key)
        → open_gcm.accepts key ≡ false
        → encrypt_under_key open_gcm key nonce (codes "ab") ≡ none)
decrypt-encrypt_under_key_example =
    decrypt-encrypt_under_key open_gcm (raw 32 7) (raw 12 1) (codes "ab")
      (refl, λ key nonce plain. refl) refl

-- A code that writes every byte as a character of its own, none of them a dollar sign, and keys that are
-- made of the password's length.
abbrev shifted : Crypto
shifted = record {
  encode64 = map (λ b. 256 + b);
  decode64 = λ t. some (map (λ c. c - 256) t);
  pbkdf2 = λ pw salt iterations size. some (replicate 32 (length pw));
}

shifted_plain : (bytes : List ℕ) → NoDollar (shifted.encode64 bytes)
shifted_plain [] = tt
shifted_plain (b ∷ bytes) = (ground arith, shifted_plain bytes)

shifted_back : (bytes : List ℕ) → map (λ c. c - 256) (shifted.encode64 bytes) ≡ bytes
shifted_back [] = refl
shifted_back (b ∷ bytes) = ground (arith, shifted_back bytes)

shifted-IsBase64 : IsBase64 shifted
shifted-IsBase64 bytes = (shifted_plain bytes, ap (λ (t : List ℕ). some t) (shifted_back bytes))

verify-hash_password_example :
    let salt = raw 16 3 in
    let key = raw 32 2 in
    (encoded : Text) × (hash_password shifted 1000 salt (codes "pw") ≡ some encoded)
    × (verify_password shifted encoded (codes "pw") ≡ true)
    × ((other : Text)
        → (verify_password shifted encoded other ≡ true)
          ↔ (shifted.pbkdf2 other salt 1000 pbkdf2_key_bytes ≡ some key))
verify-hash_password_example =
    verify-hash_password shifted 1000 (raw 16 3) (raw 32 2) (codes "pw") shifted-IsBase64
      (omega arith) (omega arith) refl refl

create_session-IsOpen_example :
    let (db', result) = create_session 1 100 (7 ∷ []) 20 20 sample in
    (result ≡ ok (hex_encode (7 ∷ []), 20 + 100))
    × ((ops : List SessionOp) (time : ℕ)
        → All (Spares (hex_encode (7 ∷ [])) 1 (20 + 100)) ops
        → time < 20 + 100
        → get_session_account (hex_encode (7 ∷ [])) time (apply_ops ops db') ≡ ok (member 1 false))
create_session-IsOpen_example =
    create_session-IsOpen (member 1 false) 100 (7 ∷ []) 20 20 sample refl refl

-- A login of the other account, a logout of another session and a change of the password's sessions.
spared : List SessionOp
spared =
    login 2 100 (8 ∷ []) 30 30
    ∷ logout (codes "other")
    ∷ revoke 2
    ∷ revoke_others 1 (hex_encode (7 ∷ []))
    ∷ []
