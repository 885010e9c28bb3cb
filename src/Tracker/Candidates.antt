-- ===== src/Tracker/Candidates.antt =====
-- The next steps that are offered: no template twice, no more than the limit, each one the next
-- step of an active workflow, and none left out while there is room.
use clai.Common.{
  ℕ, suc, ◌+◌, ◌≤◌, ◌<◌, leb→le, leb-false, true, false, ◌||◌, List, [], ◌∷◌, ◌++◌, length,
  length-append, get_elem?, All, Any, All-append, Any-append_right, Any-weaken, String, str_eq_iff,
  str_eq_refl, Option, none, some, ◌≡◌, refl, subst, append_assoc, arith, Bool-cases, Option-cases,
  inl, inr, ◌⊎◌, ℤ, pos, negsuc,
}
use clai.Tracker.{
  ActiveWorkflow, Candidate, Tracker, reaches, candidate, offers, collect_from, collect_candidates,
  on_command,
}

abbrev next_of : ActiveWorkflow → Option String
next_of aw = get_elem? aw.pattern_of.template_ids (aw.current_step + 1)

-- No template is offered twice.
abbrev pub AreDistinct : List Candidate → Type 0
AreDistinct [] = Unit
AreDistinct (c ∷ cs) = (offers c.template_id cs ≡ false) × AreDistinct cs

-- The candidate is the next step of one of the workflows.
abbrev pub ComesFrom : List ActiveWorkflow → Candidate → Type 0
ComesFrom aws c =
    Any (λ aw. (next_of aw ≡ some c.template_id) × (c ≡ candidate aw c.template_id)) aws

-- The next step of the workflow, if it has one, is offered.
abbrev pub IsServed : List Candidate → ActiveWorkflow → Type 0
IsServed cs aw = (tid : String) → next_of aw ≡ some tid → offers tid cs ≡ true

offers-append :
    (tid : String) (xs ys : List Candidate)
    → offers tid (xs ++ ys) ≡ (offers tid xs || offers tid ys)
offers-append tid [] ys = refl
offers-append tid (x ∷ xs) ys = ground (arith, offers-append tid xs ys)

AreDistinct-snoc :
    (xs : List Candidate) (c : Candidate)
    → AreDistinct xs
    → offers c.template_id xs ≡ false
    → AreDistinct (xs ++ c ∷ [])
AreDistinct-snoc [] c h new = (refl, tt)
AreDistinct-snoc (x ∷ xs) c h new = (
  ground (
    arith,
    offers-append x.template_id xs (c ∷ []),
    str_eq_iff x.template_id c.template_id,
    str_eq_iff c.template_id x.template_id,
  ),
  AreDistinct-snoc xs c h.1 (ground arith),
)

abbrev Among : ActiveWorkflow → List ActiveWorkflow → Type 0
Among aw = Any (λ a. a ≡ aw)

-- What the loop has achieved with `found`, for the workflows `all` of which `rest` are to come.
record Progress (limit : ℕ) (all rest : List ActiveWorkflow) (found : List Candidate) : Type 0 where
  distinct : AreDistinct found
  sourced : All (ComesFrom all) found
  to_come : All (λ aw. Among aw all) rest
  served : (aw : ActiveWorkflow) → Among aw all → IsServed found aw ⊎ Among aw rest
  room : length found ≤ limit

-- What it ends with.
pub record IsOffer (limit : ℕ) (all : List ActiveWorkflow) (found : List Candidate) : Type 0 where
  pub distinct : AreDistinct found
  pub sourced : All (ComesFrom all) found
  pub bounded : length found ≤ limit
  pub complete : length found < limit → (aw : ActiveWorkflow) → Among aw all → IsServed found aw

IsServed-snoc :
    (found : List Candidate) (c : Candidate) (aw : ActiveWorkflow)
    → IsServed found aw
    → IsServed (found ++ c ∷ []) aw
IsServed-snoc found c aw h tid e =
    let old = h tid e in ground (arith, offers-append tid found (c ∷ []))

module _ (limit : ℤ) (found : List Candidate) (aw : ActiveWorkflow)
    (rest : List ActiveWorkflow) where
  collect_from-last :
      next_of aw ≡ none → collect_from limit found (aw ∷ rest) ≡ collect_from limit found rest
  unfolding collect_from
  collect_from-last e = rw (collect_from, e)

  module _ (tid : String) (next : next_of aw ≡ some tid) where
    collect_from-old :
        offers tid found ≡ true
        → collect_from limit found (aw ∷ rest) ≡ collect_from limit found rest
    unfolding collect_from
    collect_from-old old = rw (collect_from, next, old)

    collect_from-full :
        offers tid found ≡ false
        → reaches (length (found ++ candidate aw tid ∷ [])) limit ≡ true
        → collect_from limit found (aw ∷ rest) ≡ found ++ candidate aw tid ∷ []
    unfolding collect_from
    collect_from-full new full = rw (collect_from, next, new, full)

    collect_from-more :
        offers tid found ≡ false
        → reaches (length (found ++ candidate aw tid ∷ [])) limit ≡ false
        → collect_from limit found (aw ∷ rest)
          ≡ collect_from limit (found ++ candidate aw tid ∷ []) rest
    unfolding collect_from
    collect_from-more new more = rw (collect_from, next, new, more)

module _ (limit : ℕ) (all : List ActiveWorkflow) where
  -- The workflow at hand is served by `found'`, which serves all that `found` does.
  pass :
      (aw : ActiveWorkflow) (rest : List ActiveWorkflow) (found found' : List Candidate)
      → Progress limit all (aw ∷ rest) found
      → ((a : ActiveWorkflow) → IsServed found a → IsServed found' a)
      → IsServed found' aw
      → (a : ActiveWorkflow) → Among a all
      → IsServed found' a ⊎ Among a rest
  pass aw rest found found' p grow here a m = elim (p.served a m) [
    | inl done ↦ inl (grow a done)
    | inr (inl e) ↦ inl (subst (IsServed found') e here)
    | inr (inr later) ↦ inr later
  ]

  skip :
      (aw : ActiveWorkflow) (rest : List ActiveWorkflow) (found : List Candidate)
      → Progress limit all (aw ∷ rest) found
      → IsServed found aw
      → Progress limit all rest found
  skip aw rest found p here = record {
    distinct = p.distinct;
    sourced = p.sourced;
    to_come = p.to_come.1;
    served = pass aw rest found found p (λ a h. h) here;
    room = p.room;
  }

  new_source :
      (aw : ActiveWorkflow) (tid : String)
      → next_of aw ≡ some tid
      → Among aw all
      → ComesFrom all (candidate aw tid)
  new_source aw tid e m = Any-weaken (λ a. a ≡ aw) _ all (λ a (same : a ≡ aw). rw same (e, refl)) m

  new-IsServed :
      (aw : ActiveWorkflow) (tid : String) (found : List Candidate)
      → next_of aw ≡ some tid
      → IsServed (found ++ candidate aw tid ∷ []) aw
  new-IsServed aw tid found e t f =
      let same : tid ≡ t = cc in
      rw (offers-append t found (candidate aw tid ∷ []), same, str_eq_refl) (ground (arith))

  -- Go on with the candidate of the workflow at hand added.
  add :
      (aw : ActiveWorkflow) (rest : List ActiveWorkflow) (found : List Candidate) (tid : String)
      → Progress limit all (aw ∷ rest) found
      → next_of aw ≡ some tid
      → offers tid found ≡ false
      → length found < limit
      → Progress limit all rest (found ++ candidate aw tid ∷ [])
  add aw rest found tid p e new more = record {
    distinct = AreDistinct-snoc found (candidate aw tid) p.distinct new;
    sourced =
        All-append (ComesFrom all) found (candidate aw tid ∷ []) p.sourced
          (new_source aw tid e p.to_come.0, tt);
    to_come = p.to_come.1;
    served =
        pass aw rest found (found ++ candidate aw tid ∷ []) p
          (λ a h. IsServed-snoc found (candidate aw tid) a h) (new-IsServed aw tid found e);
    room = omega (arith, length-append found (candidate aw tid ∷ []));
  }

  -- Stop with the candidate of the workflow at hand, which fills the offer.
  fill :
      (aw : ActiveWorkflow) (rest : List ActiveWorkflow) (found : List Candidate) (tid : String)
      → Progress limit all (aw ∷ rest) found
      → next_of aw ≡ some tid
      → offers tid found ≡ false
      → limit < length (found ++ candidate aw tid ∷ [])
      → IsOffer (suc limit) all (found ++ candidate aw tid ∷ [])
  fill aw rest found tid p e new full = record {
    distinct = AreDistinct-snoc found (candidate aw tid) p.distinct new;
    sourced =
        All-append (ComesFrom all) found (candidate aw tid ∷ []) p.sourced
          (new_source aw tid e p.to_come.0, tt);
    bounded = omega (arith, p.room, length-append found (candidate aw tid ∷ []));
    complete = λ less. absurd (omega arith);
  }

  collect_from-IsOffer :
      (found : List Candidate) (rest : List ActiveWorkflow)
      → Progress limit all rest found
      → IsOffer (suc limit) all (collect_from (pos (suc limit)) found rest)
  unfolding collect_from
  collect_from-IsOffer found [] p = record {
    distinct = p.distinct;
    sourced = p.sourced;
    bounded = omega (arith, p.room);
    complete = λ less aw m. elim (p.served aw m) [ inl done ↦ done | inr gone ↦ absurd gone ];
  }
  collect_from-IsOffer found (aw ∷ rest) p = elim (Option-cases (next_of aw)) [
    | inl last ↦
        rw (collect_from-last (pos (suc limit)) found aw rest last)
          (collect_from-IsOffer found rest (skip aw rest found p (λ t e. absurd (cc))))
    | inr (tid, e) ↦ elim (Bool-cases (offers tid found)) [
      | inl old ↦ rw (collect_from-old (pos (suc limit)) found aw rest tid e old) (
          collect_from-IsOffer found rest (
            skip aw rest found p
              (λ t f. subst (λ x. offers x found ≡ true) (let same : tid ≡ t = cc in same) old)))
      | inr new ↦
          elim (Bool-cases (reaches (length (found ++ candidate aw tid ∷ [])) (pos (suc limit)))) [
            | inl full ↦
                rw (collect_from-full (pos (suc limit)) found aw rest tid e new full)
                  (fill aw rest found tid p e new (leb→le _ _ full))
            | inr more ↦ rw (collect_from-more (pos (suc limit)) found aw rest tid e new more) (
                collect_from-IsOffer (found ++ candidate aw tid ∷ []) rest (
                  add aw rest found tid p e new (
                    omega
                      (arith, leb-false _ _ more, length-append found (candidate aw tid ∷ [])))))
          ]
    ]
  ]

All-Among : (before aws : List ActiveWorkflow) → All (λ aw. Among aw (before ++ aws)) aws
All-Among before [] = tt
All-Among before (aw ∷ aws) = (
  Any-append_right (λ a. a ≡ aw) before (aw ∷ aws) (inl refl),
  subst (λ xs. All (λ a. Among a xs) aws) (append_assoc before (aw ∷ []) aws)
      (All-Among (before ++ aw ∷ []) aws),
)

-- With a positive limit the candidates that a command returns name no template twice, are at most
-- as many as the limit, are each the next step of a workflow that is then active, and where they
-- are fewer than the limit the next step of every active workflow is among them.
pub on_command-IsOffer :
    (t : Tracker) (template_id : String) (now limit : ℕ)
    → t.cfg.max_candidates ≡ pos (suc limit)
    → let (t', candidates) = on_command t template_id now in
      IsOffer (suc limit) t'.active candidates
unfolding on_command collect_candidates
on_command-IsOffer t template_id now limit e =
    let all = (on_command t template_id now).0.active in
    rw e (
      collect_from-IsOffer limit all [] all (record {
        distinct = tt;
        sourced = tt;
        to_come = All-Among [] all;
        served = λ aw m. inr m;
        room = omega arith;
      }))

collect_from_one :
    (limit : ℤ) (rest : List ActiveWorkflow)
    → ((n : ℕ) → reaches (suc n) limit ≡ true)
    → length (collect_from limit [] rest) ≤ 1
unfolding collect_from
collect_from_one limit [] h = omega arith
collect_from_one limit (aw ∷ rest) h = elim (Option-cases (next_of aw)) [
  | inl last ↦ rw (collect_from-last limit [] aw rest last) (collect_from_one limit rest h)
  | inr (tid, e) ↦ rw (collect_from-full limit [] aw rest tid e refl (h 0)) (omega arith)
]

-- A limit that is zero or negative does not lift the bound, as the size that is reserved for the
-- result suggests: a command then returns one candidate at most.
pub on_command_unlimited :
    (t : Tracker) (template_id : String) (now n : ℕ)
    → (t.cfg.max_candidates ≡ pos 0) ⊎ (t.cfg.max_candidates ≡ negsuc n)
    → length (on_command t template_id now).1 ≤ 1
unfolding on_command collect_candidates
on_command_unlimited t template_id now n (inl e) =
    rw e (collect_from_one (pos 0) (on_command t template_id now).0.active (λ k. ground arith))
on_command_unlimited t template_id now n (inr e) =
    rw e (collect_from_one (negsuc n) (on_command t template_id now).0.active (λ k. refl))
