-- ===== src/Open/Selection.antt =====
-- Which backend the loop of `Open` (keyring.go) returns.
use keyring.Prelude.{
  ◌≡◌, refl, ◌↔◌, inl, inr, ◌∙◌, sym, ap, subst, none, some, List, [], ◌∷◌, ◌++◌, arith, append-nil,
  Option-cases,
}
use keyring.Errors.{Error, sentinel, err_no_avail_impl}
use keyring.Exec.{ok, err, Result, run-cases}
use keyring.Api.{BackendType, Config}
use keyring.Open.{Supported, Opener, open_loop}

module _ {W K : Type 0} (supported : Supported W K) (cfg : Config W) where
  -- Every supported backend of the list was tried in turn and failed.
  pub data Failed : List BackendType → W → W → Type 0 where
    done : {w w' : W} → w ≡ w' → Failed [] w w'
    unsupported :
        {b : BackendType} {bs : List BackendType} {w w' : W}
        → supported b ≡ none
        → Failed bs w w'
        → Failed (b ∷ bs) w w'
    failed :
        {b : BackendType} {bs : List BackendType} {w v w' : W} (opener : Opener W K) (e : Error)
        → supported b ≡ some opener
        → opener cfg w ≡ (err e, v)
        → Failed bs v w'
        → Failed (b ∷ bs) w w'

  -- The ring comes from a listed backend before which all supported ones failed.
  pub record Opened (bs : List BackendType) (w : W) (ring : K) (w' : W) : Type 0 where
    pub before : List BackendType
    pub backend : BackendType
    pub after : List BackendType
    pub opener : Opener W K
    pub start : W
    pub place : bs ≡ before ++ backend ∷ after
    pub entry : supported backend ≡ some opener
    pub attempts : Failed before w start
    pub opens : opener cfg start ≡ (ok ring, w')

  step_unsupported :
      (b : BackendType) (bs : List BackendType) (w : W)
      → supported b ≡ none
      → open_loop supported cfg (b ∷ bs) w ≡ open_loop supported cfg bs w
  unfolding open_loop
  step_unsupported b bs w h = ground arith

  step_failed :
      (b : BackendType) (bs : List BackendType) (w v : W) (opener : Opener W K) (e : Error)
      → supported b ≡ some opener
      → opener cfg w ≡ (err e, v)
      → open_loop supported cfg (b ∷ bs) w ≡ open_loop supported cfg bs v
  unfolding open_loop
  step_failed b bs w v opener e h k = ground arith

  step_opened :
      (b : BackendType) (bs : List BackendType) (w w' : W) (opener : Opener W K) (ring : K)
      → supported b ≡ some opener
      → opener cfg w ≡ (ok ring, w')
      → open_loop supported cfg (b ∷ bs) w ≡ (ok ring, w')
  unfolding open_loop
  step_opened b bs w w' opener ring h k = ground arith

  pub open_loop-Failed :
      (before rest : List BackendType) (w v : W)
      → Failed before w v
      → open_loop supported cfg (before ++ rest) w ≡ open_loop supported cfg rest v
  open_loop-Failed [] rest w v (done e) = ap (open_loop supported cfg rest) e
  open_loop-Failed (b ∷ bs) rest w v (unsupported h f) =
      step_unsupported b _ w h ∙ open_loop-Failed bs rest w v f
  open_loop-Failed (b ∷ bs) rest w v (failed {v = u} opener e h k f) =
      step_failed b _ w u opener e h k ∙ open_loop-Failed bs rest u v f

  Outcome : List BackendType → W → Result K → W → Type 0
  Outcome bs w (ok ring) w' = Opened bs w ring w'
  Outcome bs w (err e) w' = (e ≡ sentinel err_no_avail_impl) × Failed bs w w'

  extend :
      (b : BackendType) (bs : List BackendType) (w v : W)
      → ((bs' : List BackendType) (u : W) → Failed bs' v u → Failed (b ∷ bs') w u)
      → (r : Result K) (w' : W) → Outcome bs v r w'
      → Outcome (b ∷ bs) w r w'
  unfolding Outcome
  extend b bs w v more (ok ring) w' o = record {
    before = b ∷ o.before;
    backend = o.backend;
    after = o.after;
    opener = o.opener;
    start = o.start;
    place = ap (λ (l : List BackendType). b ∷ l) o.place;
    entry = o.entry;
    attempts = more o.before o.start o.attempts;
    opens = o.opens;
  }
  extend b bs w v more (err e) w' (same, f) = (same, more bs w' f)

  loop-Outcome :
      (bs : List BackendType) (w : W)
      → Outcome bs w (open_loop supported cfg bs w).0 (open_loop supported cfg bs w).1
  unfolding Outcome open_loop
  loop-Outcome [] w = (refl, done refl)
  loop-Outcome (b ∷ bs) w = elim (Option-cases (supported b)) [
    | inl h ↦
        rw (step_unsupported b bs w h)
          (extend b bs w w (λ bs' u f. unsupported h f) _ _ (loop-Outcome bs w))
    | inr (opener, h) ↦ elim (run-cases (opener cfg w)) [
      | inl (ring, w', k) ↦ rw (step_opened b bs w w' opener ring h k) (record {
        before = [];
        backend = b;
        after = bs;
        opener = opener;
        start = w;
        place = refl;
        entry = h;
        attempts = done refl;
        opens = k;
      })
      | inr (e, v, k) ↦
          rw (step_failed b bs w v opener e h k)
            (extend b bs w v (λ bs' u f. failed opener e h k f) _ _ (loop-Outcome bs v))
    ]
  ]

  -- The loop returns a ring exactly when some listed backend opens it after every supported one
  -- listed before it was tried, in order, and failed.
  pub open_loop_iff :
      (bs : List BackendType) (w w' : W) (ring : K)
      → (open_loop supported cfg bs w ≡ (ok ring, w')) ↔ Opened bs w ring w'
  unfolding Outcome
  open_loop_iff bs w w' ring = (
    λ h. subst (λ (p : Result K × W). Outcome bs w p.0 p.1) h (loop-Outcome bs w),
    λ o.
        ap (λ (l : List BackendType). open_loop supported cfg l w) o.place
        ∙ open_loop-Failed o.before _ w o.start o.attempts
        ∙ step_opened o.backend o.after o.start w' o.opener ring o.entry o.opens,
  )

  -- The loop fails exactly when every supported listed backend was tried and failed, and its error
  -- is then `ErrNoAvailImpl`, whatever theirs were.
  pub open_loop_err_iff :
      (bs : List BackendType) (w w' : W) (e : Error)
      → (open_loop supported cfg bs w ≡ (err e, w'))
        ↔ ((e ≡ sentinel err_no_avail_impl) × Failed bs w w')
  unfolding Outcome open_loop
  open_loop_err_iff bs w w' e = (
    λ h. subst (λ (p : Result K × W). Outcome bs w p.0 p.1) h (loop-Outcome bs w),
    λ (same, f).
        ap (λ (l : List BackendType). open_loop supported cfg l w) (sym (append-nil bs))
        ∙ open_loop-Failed bs [] w w' f
        ∙ ap (λ (x : Error). (err x, w')) (sym same),
  )
