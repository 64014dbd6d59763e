-- ===== src/Store/Codes.antt =====
-- What becomes of one authorization code of internal/idp/store.go in the calls that issue none.
use mathlib.Core.Path.{subst}
use minidp.Base.{ℕ, String, ◌≡◌, sym, Option, none, some, ◌⊎◌, inl, inr, arith, eq_iff}
use minidp.Store.{
  Store, AuthCode, RefreshEntry, take_code, add_refresh, take_refresh, register_jti, deny_jti,
  revoke_family, revoke_token,
}

-- `P` holds of what the store has under `id`.
abbrev pub CodeIs : String → (Option AuthCode → Type 0) → Store → Type 0
CodeIs id P st = P (st.codes id)

abbrev IsKeptOrGone : String → Store → Store → Type 0
IsKeptOrGone id st st' = (st'.codes id ≡ st.codes id) ⊎ (st'.codes id ≡ none)

module _ (id : String) where
  take_code-code : (j : String) (t u : ℕ) (st : Store) → IsKeptOrGone id st (take_code t u j st).1
  unfolding take_code
  take_code-code j t u st = ground (arith, eq_iff j id)

  take_refresh-code :
      (j : String) (t u : ℕ) (st : Store) → IsKeptOrGone id st (take_refresh t u j st).1
  unfolding take_refresh
  take_refresh-code j t u st = ground arith

  add_refresh-code :
      (draw : Option String) (f : RefreshEntry) (ttl t u : ℕ) (st : Store)
      → IsKeptOrGone id st (add_refresh t u draw f ttl st).1
  unfolding add_refresh
  add_refresh-code none f ttl t u st = ground arith
  add_refresh-code (some j) f ttl t u st = ground arith

  revoke_family-code :
      (family : String) (t : ℕ) (st : Store) → IsKeptOrGone id st (revoke_family t family st)
  unfolding revoke_family
  revoke_family-code family t st = ground arith

  revoke_token-code :
      (token : String) (t : ℕ) (st : Store) → IsKeptOrGone id st (revoke_token t token st)
  unfolding revoke_token revoke_family
  revoke_token-code token t st = ground (arith, eq_iff token id)

module _ (id : String) (P : Option AuthCode → Type 0) (gone : P none) where
  kept_or_gone : (o o' : Option AuthCode) → (o' ≡ o) ⊎ (o' ≡ none) → P o → P o'
  kept_or_gone o o' (inl e) h = subst P (sym e) h
  kept_or_gone o o' (inr e) h = subst P (sym e) gone

  pub take_code-CodeIs :
      (j : String) (t u : ℕ) (st : Store) → CodeIs id P st → CodeIs id P (take_code t u j st).1
  take_code-CodeIs j t u st = kept_or_gone (st.codes id) _ (take_code-code id j t u st)

  pub take_refresh-CodeIs :
      (j : String) (t u : ℕ) (st : Store) → CodeIs id P st → CodeIs id P (take_refresh t u j st).1
  take_refresh-CodeIs j t u st = kept_or_gone (st.codes id) _ (take_refresh-code id j t u st)

  pub add_refresh-CodeIs :
      (draw : Option String) (f : RefreshEntry) (ttl t u : ℕ) (st : Store)
      → CodeIs id P st
      → CodeIs id P (add_refresh t u draw f ttl st).1
  add_refresh-CodeIs draw f ttl t u st =
      kept_or_gone (st.codes id) _ (add_refresh-code id draw f ttl t u st)

  pub register_jti-CodeIs :
      (jti sub family : String) (exp : ℕ) (st : Store)
      → CodeIs id P st
      → CodeIs id P (register_jti jti sub family exp st)
  unfolding register_jti
  register_jti-CodeIs jti sub family exp st h = h

  pub deny_jti-CodeIs :
      (jti : String) (until : ℕ) (st : Store) → CodeIs id P st → CodeIs id P (deny_jti jti until st)
  unfolding deny_jti
  deny_jti-CodeIs jti until st h = h

  pub revoke_family-CodeIs :
      (family : String) (t : ℕ) (st : Store)
      → CodeIs id P st
      → CodeIs id P (revoke_family t family st)
  revoke_family-CodeIs family t st =
      kept_or_gone (st.codes id) _ (revoke_family-code id family t st)

  pub revoke_token-CodeIs :
      (token : String) (t : ℕ) (st : Store) → CodeIs id P st → CodeIs id P (revoke_token t token st)
  revoke_token-CodeIs token t st = kept_or_gone (st.codes id) _ (revoke_token-code id token t st)
