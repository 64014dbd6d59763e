-- ===== src/Ctl/Changes/Keeps.antt =====
-- cmd/clientctl/main.go: what `client update` leaves alone in the entry that it changes.
use minidp.Base.{
  if-cases, String, ◌≡◌, refl, ap, All, [], ◌∷◌, ◌∙◌, Bool, false, not, ◌&&◌, ◌==◌, sym, List,
  contains, Bool-cases, inl, inr,
}
use minidp.Errors.{ok-eq, ctl, type_must_be, confidential_needs, ok, refuse_if, >>-eq-ok, >>=-eq-ok}
use minidp.Clients.{Client, confidential}
use minidp.Ctl.Console.{Console, resolve_new_secret}
use minidp.Ctl.Changes.{
  ClientChangeSpec, Change, apply_flag, apply_flags, is_type, endpoint_flags,
  apply_client_endpoint_changes, apply_client_changes, apply_type, apply_secret,
  apply_client_profile_change, drop_secret,
}

module _ {ℓ} {A : Type ℓ} (part : Client → A) (spec : ClientChangeSpec) where
  apply_flag-keeps :
      (flag : String) (change : Client → Client) (ch : Change)
      → ((c : Client) → part (change c) ≡ part c)
      → part (apply_flag spec flag change ch).0 ≡ part ch.0
  apply_flag-keeps flag change (c, b) same = elim (Bool-cases (contains spec.provided flag)) [
    | inl e ↦ (rw e (same c))
    | inr e ↦ (rw e refl)
  ]

  apply_flags-keeps :
      (flags : List (String × (Client → Client))) (ch : Change)
      → All (λ (entry : String × (Client → Client)). (c : Client) → part (entry.1 c) ≡ part c) flags
      → part (apply_flags spec flags ch).0 ≡ part ch.0
  unfolding apply_flags
  apply_flags-keeps [] ch h = refl
  apply_flags-keeps ((flag, change) ∷ rest) ch h =
      apply_flags-keeps rest (apply_flag spec flag change ch) h.1
      ∙ apply_flag-keeps flag change ch h.0

  module _ (t : (d : Client) (v : String) → part (record d { type = v }) ≡ part d)
      (s : (d : Client) (v : String) → part (record d { client_secret = v }) ≡ part d) where
    drop_secret-keeps : (b : Bool) (c : Client) → part (drop_secret b c) ≡ part c
    unfolding drop_secret
    drop_secret-keeps b c = elim (Bool-cases (b && not (confidential c))) [
      | inl e ↦ (rw e (s c ""))
      | inr e ↦ (rw e refl)
    ]

    apply_type-keeps : (c : Client) (ch : Change) → apply_type spec c ≡ ok ch → part ch.0 ≡ part c
    unfolding apply_type
    apply_type-keeps c ch h = elim (if-cases (contains spec.provided "type") _ _ h) [
      | inl f ↦
          (let g = (>>-eq-ok (refuse_if (not (is_type spec.f.typ)) (ctl type_must_be)) _ f.1).1 in
            ap (λ (x : Change). part x.0) (sym (ok-eq g))
            ∙ drop_secret-keeps (confidential c) (record c { type = spec.f.typ })
            ∙ t c _)
      | inr f ↦ ap (λ (x : Change). part x.0) (sym (ok-eq f.1))
    ]

    apply_secret-keeps :
        (console : Console) (c : Client) (b : Bool) (ch : Change)
        → apply_secret console spec (c, b) ≡ ok ch
        → part ch.0 ≡ part c
    unfolding apply_secret
    apply_secret-keeps console c b ch h = elim (if-cases (contains spec.provided "secret") _ _ h) [
      | inl f ↦
          (let (v, _, g) = >>=-eq-ok (resolve_new_secret console spec.f.secret) _ f.1 in
            ap (λ (x : Change). part x.0) (sym (ok-eq g)) ∙ s c v)
      | inr f ↦ ap (λ (x : Change). part x.0) (sym (ok-eq f.1))
    ]

    profile_keeps :
        (console : Console) (c : Client) (ch : Change)
        → apply_client_profile_change console spec c ≡ ok ch
        → part ch.0 ≡ part c
    unfolding apply_client_profile_change
    profile_keeps console c ch h =
        let ((d, b), e, h') = >>=-eq-ok (apply_type spec c) _ h in
        let (last, f, h'') = >>=-eq-ok (apply_secret console spec (d, b)) _ h' in
        let g =
          (>>-eq-ok
            (refuse_if (confidential last.0 && last.0.client_secret == "") (ctl confidential_needs))
            _ h'').1 in
        ap (λ (x : Change). part x.0) (sym (ok-eq g))
        ∙ apply_secret-keeps console d b last f
        ∙ apply_type-keeps c (d, b) e

    changes_keep :
        (console : Console) (c : Client) (ch : Change)
        → All
            (λ (entry : String × (Client → Client)). (d : Client) → part (entry.1 d) ≡ part d)
            (endpoint_flags spec.f)
        → apply_client_changes console spec c ≡ ok ch
        → part ch.0 ≡ part c
    unfolding apply_client_changes apply_client_endpoint_changes
    changes_keep console c ch flags h =
        let (profile, e, f) = >>=-eq-ok (apply_client_profile_change console spec c) _ h in
        ap (λ (x : Change). part x.0) (sym (ok-eq f))
        ∙ apply_flags-keeps (endpoint_flags spec.f) (profile.0, false) flags
        ∙ profile_keeps console c profile e

abbrev pub Keeps : Client → Client → Type 0
Keeps c c' = (c'.client_id ≡ c.client_id) × (c'.users ≡ c.users)

pub apply_client_changes-Keeps :
    (console : Console) (spec : ClientChangeSpec) (c : Client) (ch : Change)
    → apply_client_changes console spec c ≡ ok ch
    → Keeps c ch.0
apply_client_changes-Keeps console spec c ch h = (
  changes_keep (λ d. d.client_id) spec (λ d v. refl) (λ d v. refl) console c ch
      (
        λ d. refl,
        (
          λ d. refl,
          (λ d. refl, (λ d. refl, (λ d. refl, (λ d. refl, (λ d. refl, (λ d. refl, tt)))))),
        ),
      )
      h,
  changes_keep (λ d. d.users) spec (λ d v. refl) (λ d v. refl) console c ch
      (
        λ d. refl,
        (
          λ d. refl,
          (λ d. refl, (λ d. refl, (λ d. refl, (λ d. refl, (λ d. refl, (λ d. refl, tt)))))),
        ),
      )
      h,
)
