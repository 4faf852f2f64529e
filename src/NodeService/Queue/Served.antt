-- ===== src/NodeService/Queue/Served.antt =====
-- No caller of PlaceComponent is lost, pkg/maelstrom/node_svc.go.
use maelstrom.Prelude.{
  ℕ, ◌≡◌, ◌⊎◌, inl, inr, ◌↔◌, refl, sym, ◌∙◌, String, false, none, some, List, [], ◌∷◌, ◌++◌, map,
  Memᴰ, Memᴰ-append_left, Memᴰ-append_right, Memᴰ-map, lookup, lookup-insert, lookup-delete, ◌=s=◌,
  name_iff, if◌then◌else◌, Option-cases, Bool-cases, subst, arith,
}
use maelstrom.NodeService.Queue.{Queue, empty_queue, arrive, waiting, finish, Reach}

module _ {A : Type 0} where
  -- A component has waiters in the map just when a caller places it.
  abbrev pub IsPaired : Queue A → Type 0
  IsPaired q = (name : String) → (lookup name q.leaders ≡ none) ↔ (lookup name q.waiters ≡ none)

  -- The caller places the component, waits for it, or has an answer.
  abbrev pub IsServed : Queue A → ℕ × String → Type 0
  IsServed q (caller, name) =
      (lookup name q.leaders ≡ some caller)
      ⊎ Memᴰ caller (waiting name q)
      ⊎ ((a : A) × Memᴰ (caller, a) q.answers)

  arrive-IsPaired :
      (name : String) (caller : ℕ) (q : Queue A) → IsPaired q → IsPaired (arrive name caller q)
  unfolding arrive
  arrive-IsPaired name caller q p other = elim (Option-cases (lookup name q.waiters)) [
    | inl e ↦ ground (
      arith,
      e,
      p other,
      lookup-insert name other caller q.leaders,
      lookup-insert name other [] q.waiters,
    )
    | inr (ws, e) ↦ ground (
      arith,
      e,
      p other,
      p name,
      name_iff name other,
      lookup-insert name other (ws ++ (caller ∷ [])) q.waiters,
    )
  ]

  finish-IsPaired :
      (name : String) (result : A) (q : Queue A) → IsPaired q → IsPaired (finish name result q)
  unfolding finish
  finish-IsPaired name result q p other = elim (Option-cases (lookup name q.leaders)) [
    | inl e ↦ ground (arith, e, p other)
    | inr (leader, e) ↦
        ground (
          arith,
          e,
          p other,
          lookup-delete name other q.leaders,
          lookup-delete name other q.waiters,
        )
  ]

  waiting-none : (name : String) (q : Queue A) → lookup name q.waiters ≡ none → waiting name q ≡ []
  waiting-none name q e = ground (arith, e)

  arrive-waiting :
      (name other : String) (caller : ℕ) (q : Queue A) (ws : List ℕ)
      → lookup name q.waiters ≡ some ws
      → waiting other (arrive name caller q)
        ≡ (if name =s= other then ws ++ (caller ∷ []) else waiting other q)
  unfolding arrive
  arrive-waiting name other caller q ws e =
      ground (arith, e, lookup-insert name other (ws ++ (caller ∷ [])) q.waiters)

  -- Who waits goes on to wait, beside the new caller.
  arrive-waits :
      (name other : String) (caller old : ℕ) (q : Queue A) (ws : List ℕ)
      → lookup name q.waiters ≡ some ws
      → Memᴰ old (waiting other q)
      → Memᴰ old (waiting other (arrive name caller q))
  arrive-waits name other caller old q ws e m = elim (Bool-cases (name =s= other)) [
    | inl same ↦
        let at : waiting other q ≡ ws = ground (arith, e, same, name_iff name other) in
        let next : waiting other (arrive name caller q) ≡ ws ++ (caller ∷ []) =
          arrive-waiting name other caller q ws e ∙ rw same refl in
        subst (λ w. Memᴰ old w) (sym next)
          (Memᴰ-append_left old ws (caller ∷ []) (subst (λ w. Memᴰ old w) at m))
    | inr different ↦
        let next : waiting other (arrive name caller q) ≡ waiting other q =
          arrive-waiting name other caller q ws e ∙ rw different refl in
        subst (λ w. Memᴰ old w) (sym next) m
  ]

  -- In the case without waiters, where the new caller leads.
  leads_keeps :
      (name other : String) (caller old : ℕ) (q : Queue A)
      → IsPaired q
      → lookup name q.waiters ≡ none
      → IsServed q (old, other)
      → IsServed (arrive name caller q) (old, other)
  unfolding arrive
  leads_keeps name other caller old q p e (inl l) =
      inl (
        ground
          (arith, e, l, p name, name_iff name other, lookup-insert name other caller q.leaders))
  leads_keeps name other caller old q p e (inr (inl m)) = elim (Bool-cases (name =s= other)) [
    | inl same ↦
        let at : waiting other q ≡ [] = ground (arith, e, same, name_iff name other) in
        let none_waits : Memᴰ old [] = subst (λ w. Memᴰ old w) at m in elim none_waits [ ]
    | inr different ↦
        let next : waiting other (arrive name caller q) ≡ waiting other q =
          ground (arith, e, different, lookup-insert name other [] q.waiters) in
        inr (inl (subst (λ w. Memᴰ old w) (sym next) m))
  ]
  leads_keeps name other caller old q p e (inr (inr (a, m))) =
      inr (inr (a, subst (λ w. Memᴰ {A = ℕ × A} (old, a) w) (ground (arith, e)) m))

  joins_keeps :
      (name other : String) (caller old : ℕ) (q : Queue A) (ws : List ℕ)
      → lookup name q.waiters ≡ some ws
      → IsServed q (old, other)
      → IsServed (arrive name caller q) (old, other)
  unfolding arrive
  joins_keeps name other caller old q ws e (inl l) = inl (ground (arith, e, l))
  joins_keeps name other caller old q ws e (inr (inl m)) =
      inr (inl (arrive-waits name other caller old q ws e m))
  joins_keeps name other caller old q ws e (inr (inr (a, m))) =
      inr (inr (a, subst (λ w. Memᴰ {A = ℕ × A} (old, a) w) (ground (arith, e)) m))

  arrive-IsServed :
      (name other : String) (caller old : ℕ) (q : Queue A)
      → IsPaired q
      → IsServed q (old, other)
      → IsServed (arrive name caller q) (old, other)
  arrive-IsServed name other caller old q p served = elim (Option-cases (lookup name q.waiters)) [
    | inl e ↦ leads_keeps name other caller old q p e served
    | inr (ws, e) ↦ joins_keeps name other caller old q ws e served
  ]

  arrived-IsServed :
      (name : String) (caller : ℕ) (q : Queue A) → IsServed (arrive name caller q) (caller, name)
  unfolding arrive
  arrived-IsServed name caller q = elim (Option-cases (lookup name q.waiters)) [
    | inl e ↦ inl (ground (arith, e, name_iff name name, lookup-insert name name caller q.leaders))
    | inr (ws, e) ↦
        let next : waiting name (arrive name caller q) ≡ ws ++ (caller ∷ []) =
          arrive-waiting name name caller q ws e ∙ rw ((name_iff name name).1 refl) refl in
        inr (
          inl (
            subst (λ w. Memᴰ caller w) (sym next)
              (Memᴰ-append_right caller ws (caller ∷ []) (Memᴰ.head refl))))
  ]

  -- The answers once the placement of a component ends.
  finish-answers :
      (name : String) (result : A) (q : Queue A) (leader : ℕ)
      → lookup name q.leaders ≡ some leader
      → Queue.answers (finish name result q)
        ≡ (leader, result) ∷ map (λ caller. (caller, result)) (waiting name q) ++ q.answers
  unfolding finish
  finish-answers name result q leader e = rw (e, finish) refl

  no_placement :
      (name : String) (result : A) (q : Queue A)
      → lookup name q.leaders ≡ none
      → finish name result q ≡ q
  unfolding finish
  no_placement name result q e = rw (e, finish) refl

  abbrev Answered : Queue A → ℕ → Type 0
  Answered q caller = (a : A) × Memᴰ (caller, a) q.answers

  keeps_reply :
      (name : String) (result a : A) (caller : ℕ) (q : Queue A) (leader : ℕ)
      → lookup name q.leaders ≡ some leader
      → Memᴰ (caller, a) q.answers
      → Answered (finish name result q) caller
  keeps_reply name result a caller q leader e m = (
    a,
    subst (λ w. Memᴰ {A = ℕ × A} (caller, a) w) (sym (finish-answers name result q leader e))
        (Memᴰ.tail
          (Memᴰ-append_right (caller, a) (map (λ c. (c, result)) (waiting name q)) q.answers m)),
  )

  -- The leader and those who wait get the result.
  leader_gets_reply :
      (name : String) (result : A) (caller : ℕ) (q : Queue A)
      → lookup name q.leaders ≡ some caller
      → Answered (finish name result q) caller
  leader_gets_reply name result caller q e = (
    result,
    subst (λ w. Memᴰ {A = ℕ × A} (caller, result) w) (sym (finish-answers name result q caller e))
        (Memᴰ.head refl),
  )

  waiter_gets_reply :
      (name : String) (result : A) (caller : ℕ) (q : Queue A) (leader : ℕ)
      → lookup name q.leaders ≡ some leader
      → Memᴰ caller (waiting name q)
      → Answered (finish name result q) caller
  waiter_gets_reply name result caller q leader e m = (
    result,
    subst (λ w. Memᴰ {A = ℕ × A} (caller, result) w) (sym (finish-answers name result q leader e))
        (Memᴰ.tail (
          Memᴰ-append_left (caller, result) (map (λ c. (c, result)) (waiting name q)) q.answers
            (Memᴰ-map (λ c. (c, result)) caller (waiting name q) m))),
  )

  other_placement :
      (name other : String) (result : A) (q : Queue A) (leader : ℕ)
      → lookup name q.leaders ≡ some leader
      → (name =s= other) ≡ false
      → (lookup other (Queue.leaders (finish name result q)) ≡ lookup other q.leaders)
        × (waiting other (finish name result q) ≡ waiting other q)
  unfolding finish
  other_placement name other result q leader e d =
      ground (arith, e, d, lookup-delete name other q.leaders, lookup-delete name other q.waiters)

  ended_serves :
      (name other : String) (result : A) (caller : ℕ) (q : Queue A) (leader : ℕ)
      → lookup name q.leaders ≡ some leader
      → IsServed q (caller, other)
      → IsServed (finish name result q) (caller, other)
  ended_serves name other result caller q leader e (inr (inr (a, m))) =
      inr (inr (keeps_reply name result a caller q leader e m))
  ended_serves name other result caller q leader e (inl l) = elim (Bool-cases (name =s= other)) [
    | inl same ↦
        let at : lookup name q.leaders ≡ some caller =
          ground (arith, l, same, name_iff name other) in
        inr (inr (leader_gets_reply name result caller q at))
    | inr d ↦ inl ((other_placement name other result q leader e d).0 ∙ l)
  ]
  ended_serves name other result caller q leader e (inr (inl m)) =
      elim (Bool-cases (name =s= other)) [
        | inl same ↦
            let at : Memᴰ caller (waiting name q) =
              subst (λ n. Memᴰ caller (waiting n q)) (sym ((name_iff name other).0 same)) m in
            inr (inr (waiter_gets_reply name result caller q leader e at))
        | inr d ↦ inr (
            inl (
              subst (λ w. Memᴰ caller w) (sym (other_placement name other result q leader e d).1)
                m))
      ]

  finish-IsServed :
      (name other : String) (result : A) (caller : ℕ) (q : Queue A)
      → IsServed q (caller, other)
      → IsServed (finish name result q) (caller, other)
  finish-IsServed name other result caller q served = elim (Option-cases (lookup name q.leaders)) [
    | inl e ↦ subst (λ r. IsServed r (caller, other)) (sym (no_placement name result q e)) served
    | inr (leader, e) ↦ ended_serves name other result caller q leader e served
  ]

  Reach-IsPaired : {arrived : List (ℕ × String)} {q : Queue A} → Reach arrived q → IsPaired q
  unfolding empty_queue lookup
  Reach-IsPaired Reach.start = λ name. (λ e. refl, λ e. refl)
  Reach-IsPaired (Reach.arrival {q = q} name caller r) =
      arrive-IsPaired name caller q (Reach-IsPaired r)
  Reach-IsPaired (Reach.completion {q = q} name result r) =
      finish-IsPaired name result q (Reach-IsPaired r)

  Reach-IsServed :
      {arrived : List (ℕ × String)} {q : Queue A}
      → Reach arrived q
      → (caller : ℕ) (name : String) → Memᴰ (caller, name) arrived
      → IsServed q (caller, name)
  Reach-IsServed Reach.start caller name m = elim m [ ]
  Reach-IsServed (Reach.arrival {q = q} at new r) caller name (Memᴰ.head e) =
      subst (λ c. IsServed (arrive at new q) c) (sym e) (arrived-IsServed at new q)
  Reach-IsServed (Reach.arrival {q = q} at new r) caller name (Memᴰ.tail m) =
      arrive-IsServed at name new caller q (Reach-IsPaired r) (Reach-IsServed r caller name m)
  Reach-IsServed (Reach.completion {q = q} at result r) caller name m =
      finish-IsServed at name result caller q (Reach-IsServed r caller name m)

  -- However calls and the ends of placements follow each other, each caller has an answer once the next
  -- placement of its component ends.
  pub finish_answers_all :
      {arrived : List (ℕ × String)} {q : Queue A}
      → Reach arrived q
      → (caller : ℕ) (name : String) (result : A) → Memᴰ (caller, name) arrived
      → (a : A) × Memᴰ (caller, a) (Queue.answers (finish name result q))
  finish_answers_all {q = q} r caller name result m = elim (Reach-IsServed r caller name m) [
    | inl l ↦ leader_gets_reply name result caller q l
    | inr (inl w) ↦ elim (Option-cases (lookup name q.leaders)) [
      | inl e ↦
          let at : waiting name q ≡ [] = waiting-none name q ((Reach-IsPaired r name).0 e) in
          let none_waits : Memᴰ caller [] = subst (λ ws. Memᴰ caller ws) at w in elim none_waits [ ]
      | inr (leader, e) ↦ waiter_gets_reply name result caller q leader e w
    ]
    | inr (inr (a, w)) ↦ elim (Option-cases (lookup name q.leaders)) [
      | inl e ↦ (
        a,
        subst (λ p. Memᴰ {A = ℕ × A} (caller, a) (Queue.answers p))
            (sym (no_placement name result q e)) w,
      )
      | inr (leader, e) ↦ keeps_reply name result a caller q leader e w
    ]
  ]
