-- ===== src/OptOut/Window.antt =====
-- The 24 hours between an opt-out and its effect.
use verisearch.Prelude.{
  ℕ, ◌+◌, false, none, some, List, [], ◌∷◌, leb, if◌then◌else◌, Str, str_eq, str_eq_iff, ◌≡◌, refl,
  sym, ◌∙◌, Bool-cases, Option-cases, inl, inr,
}
use verisearch.Prelude.Dict.{lookup, lookup-insert, lookup-remove}
use verisearch.OptOut.Registry.{Registry, register_opt_out, is_opted_out, remove_opt_out}

module _ (normal : Str → Str) where
  -- `register_opt_out` for each domain and time in turn.
  unfoldable pub register_all : List (Str × ℕ) → Registry → Registry
  unfolding register_opt_out
  register_all [] r = r
  register_all (e ∷ es) r = register_all es (register_opt_out normal e.0 e.1 r)

  register-keeps :
      (domain : Str) (now : ℕ) (key : Str) (t : ℕ) (r : Registry)
      → lookup key r ≡ some t
      → lookup key (register_opt_out normal domain now r) ≡ some t
  unfolding register_opt_out
  register-keeps domain now key t r e = elim (Option-cases (lookup (normal domain) r)) [
    | inr (u, there) ↦ rw (register_opt_out, there) e
    | inl missing ↦ elim (Bool-cases (str_eq (normal domain) key)) [
      | inl same ↦
          let k : normal domain ≡ key = (str_eq_iff (normal domain) key).0 same in
          let q : lookup key r ≡ none = rw k at missing in
          absurd (let x : none ≡ some t = sym q ∙ e in cc)
      | inr apart ↦
          rw (register_opt_out, missing) (rw (lookup-insert (normal domain) key now r, apart) e)
    ]
  ]

  register_all-keeps :
      (es : List (Str × ℕ)) (key : Str) (t : ℕ) (r : Registry)
      → lookup key r ≡ some t
      → lookup key (register_all es r) ≡ some t
  unfolding register_all
  register_all-keeps [] key t r e = e
  register_all-keeps ((d, now) ∷ es) key t r e =
      register_all-keeps es key t (register_opt_out normal d now r) (register-keeps d now key t r e)

  -- For a domain that is not registered, the first opt-out counts: after it, and whatever opt-outs
  -- of this domain or others follow, the domain is opted out exactly from 24 hours after it on.
  pub is_opted_out-register_all :
      (domain : Str) (at later : ℕ) (es : List (Str × ℕ)) (r : Registry)
      → lookup (normal domain) r ≡ none
      → is_opted_out normal domain later (register_all es (register_opt_out normal domain at r))
        ≡ leb (at + 86400) later
  unfolding is_opted_out register_opt_out
  is_opted_out-register_all domain at later es r fresh =
      let key = normal domain in
      let first : lookup key (register_opt_out normal domain at r) ≡ some at =
        rw (register_opt_out, fresh)
          (rw (lookup-insert key key at r, (str_eq_iff key key).1 refl)) in
      rw (is_opted_out, register_all-keeps es key at (register_opt_out normal domain at r) first)

  -- A domain that is removed is not opted out at any time, and domains of another name are as before.
  pub is_opted_out-remove_opt_out :
      (domain other : Str) (later : ℕ) (r : Registry)
      → is_opted_out normal other later (remove_opt_out normal domain r).1 ≡ (
          if str_eq (normal domain) (normal other)
          then false
          else is_opted_out normal other later r)
  unfolding is_opted_out remove_opt_out
  is_opted_out-remove_opt_out domain other later r =
      elim (Bool-cases (str_eq (normal domain) (normal other))) [
        | inl same ↦ rw (is_opted_out, lookup-remove (normal domain) (normal other) r, same)
        | inr apart ↦ rw (is_opted_out, lookup-remove (normal domain) (normal other) r, apart)
      ]
