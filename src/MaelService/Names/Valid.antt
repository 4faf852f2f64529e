-- ===== src/MaelService/Names/Valid.antt =====
-- Which names the service takes, pkg/maelstrom/mael_svc.go.
use Prim.Native.String.{String, len}
use maelstrom.Prelude.{ℕ, ◌≡◌, ◌≢◌, ◌≤◌, inl, inr, sym, true, ltb, ◌=s=◌, Bool-cases, subst, arith}
use maelstrom.MaelService.{replied, panicked}
use maelstrom.MaelService.Names.{trim_space, name_re_matches, name_valid}

-- A name is taken without the blanks around it; what is left is not longer than allowed and made of the characters of
-- names.
abbrev pub IsName : ℕ → String → Type 0
IsName max_len name = (len name ≤ max_len) × (name_re_matches name ≡ true)

pub name_valid-IsName :
    (err_prefix name : String) (max_len : ℕ) (taken : String)
    → name_valid err_prefix name max_len ≡ replied taken
    → (taken ≡ trim_space name) × IsName max_len taken
unfolding name_valid
name_valid-IsName err_prefix name max_len taken e =
    let trimmed = trim_space name in
    elim (Bool-cases (trimmed =s= "")) [
      | inl a ↦ ground (arith, a, e)
      | inr a ↦ elim (Bool-cases (ltb max_len (len trimmed))) [
        | inl b ↦ ground (arith, a, b, e)
        | inr b ↦ elim (Bool-cases (name_re_matches trimmed)) [
          | inr c ↦ ground (arith, a, b, c, e)
          | inl c ↦
              let same : trimmed ≡ taken = ground (arith, a, b, c, e) in
              (sym same, subst (λ n. IsName max_len n) same (ground (arith, b), c))
        ]
      ]
    ]

pub name_valid_no_panic :
    (err_prefix name : String) (max_len : ℕ) → name_valid err_prefix name max_len ≢ panicked
unfolding name_valid
name_valid_no_panic err_prefix name max_len e = ground (arith, e)
