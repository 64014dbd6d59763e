-- ===== src/Errors.antt =====
-- internal/idp/errors.go and cmd/clientctl/errors.go: the sentinel errors, without the text that wraps
-- them, and results.
use minidp.Base.{◌≡◌, refl, ◌⊎◌, inl, inr, Bool, true, false}

-- The sentinel errors of cmd/clientctl/errors.go.
pub data CtlError : Type 0 where
  unknown_client_cmd unknown_user_cmd no_secret must_be_not_empty values_do_not_match : CtlError
  clients_file_missing client_flag_required type_must_be redirect_required : CtlError
  client_exists_hint confidential_needs client_does_not_exist client_missing_hint : CtlError
  password_empty username_required user_exists_hint cost_needs_password : CtlError
  user_not_in_client nothing_to_update_cli nothing_to_update_usr : CtlError

pub data Error : Type 0 where
  client_id_empty padded_value value_whitespace public_client_secret : Error
  confidential_no_secret client_type_must_be whitespace_entry duplicate_cc_role : Error
  grant_types_allowed duplicate_grant_type grant_not_enabled grant_wants_confident : Error
  cc_scopes_required allowed_scope_form allowed_scope_own_aud redirect_uri_required : Error
  empty_value url_absolute clients_array_missing clients_file_shape : Error
  free_of_whitespace duplicate_res_audience app_roles_required duplicate_app_role : Error
  cc_role_not_defined user_role_not_defined duplicate_client_id no_clients_registered : Error
  no_users_registered clients_file_unset removed_variable int_not_whole_number : Error
  int_not_positive token_invalid not_access_token claims_invalid : Error
  audience_missing audience_rejected token_revoked not_id_token : Error
  issuer_foreign tokens_unreg_cli keyring_entry_incomplete keyring_state_invalid : Error
  keyring_duplicate_kid keyring_contains_no_keys keyring_thumbprint_mismatch
        keyring_multiple_active :
      Error
  keyring_no_active_key await_timed_out key_dir_required generated_kid_exists : Error
  no_pem_block not_an_rsa_key unknown_kid username_empty : Error
  password_hash_shape roles_empty_entry duplicate_role duplicate_username : Error
  bcrypt_cost_range asset_override_too_large : Error
  -- an error of a library that is called, such as a URL or a key that does not parse
  upstream : Error
  -- os.ErrNotExist
  not_exist : Error
  ctl : CtlError → Error

-- A Go result `(T, error)`, or an `error` alone at `Unit`.
pub data Result {ℓ} (A : Type ℓ) : Type ℓ where
  ok : A → Result A
  err : Error → Result A

module _ {ℓ κ} {A : Type ℓ} {B : Type κ} where
  infixl 5 ◌>>=◌
  abbrev pub ◌>>=◌ : Result A → (A → Result B) → Result B
  err failure >>= next = err failure
  ok found >>= next = next found

infixl 5 ◌>>◌
abbrev pub ◌>>◌ {ℓ} : {B : Type ℓ} → Result (Unit {0}) → Result B → Result B
check >> rest = check >>= λ (u : Unit {0}). rest

-- if bad { return err }
abbrev pub refuse_if : Bool → Error → Result (Unit {0})
refuse_if true e = err e
refuse_if false e = ok tt

pub >>-eq-ok {ℓ} :
    {B : Type ℓ} (m : Result (Unit {0})) (k : Result B) {b : B}
    → (m >> k) ≡ ok b
    → (m ≡ ok tt) × (k ≡ ok b)
>>-eq-ok (ok tt) k h = (refl, h)
>>-eq-ok (err e) k h = (cc, cc)

pub refuse_if-eq-ok : (b : Bool) (e : Error) → refuse_if b e ≡ ok tt → b ≡ false
refuse_if-eq-ok true e h = cc
refuse_if-eq-ok false e h = refl

pub Result-cases {ℓ} :
    {A : Type ℓ} (r : Result A) → ((e : Error) × (r ≡ err e)) ⊎ ((a : A) × (r ≡ ok a))
Result-cases (ok a) = inr (a, refl)
Result-cases (err e) = inl (e, refl)

pub >>=-eq-ok {ℓ κ} :
    {A : Type ℓ} {B : Type κ} (m : Result A) (k : A → Result B) {b : B}
    → (m >>= k) ≡ ok b
    → (a : A) × (m ≡ ok a) × (k a ≡ ok b)
>>=-eq-ok (ok a) k h = (a, refl, h)
>>=-eq-ok (err e) k h = cc

pub ok-eq {ℓ} : {A : Type ℓ} {a b : A} → ok a ≡ ok b → a ≡ b
ok-eq h = cc
