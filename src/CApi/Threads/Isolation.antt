-- ===== src/CApi/Threads/Isolation.antt =====
-- The turns of threads (src/c_api.rs) and what is a thread's own.
use c2pa_c.Common.{
  ℕ, ◌<◌, ◌≤◌, List, [], ◌∷◌, ◌++◌, some, false, ◌>>=◌, ◌≡◌, refl, ◌∙◌, arith, Option-cases, inl,
  inr,
}
use mathlib.Core.Path.{subst}
use c2pa_c.Stream.{Ptr}
use c2pa_c.Memory.Laws.{ValidCells}
use c2pa_c.Memory.Frame.{has, has-append, returned}
use c2pa_c.Sdk.{Sdk, Block}
use c2pa_c.CApi.Session.{Call, Reply, perform, handles}
use c2pa_c.CApi.Session.Safety.{perform-Steps}
use c2pa_c.CApi.Threads.{Process, enter, leave, turn, interleave, threads_of, handles_of}

-- From `p` to `p'` the memory stays valid, the objects that are not listed stay, and so do the
-- errors of the threads that are not listed.
pub record Apart {E B : Type 0} (threads : List ℕ) (touched : List Ptr) (p p' : Process E B)
    : Type 0 where
  pub grows : p.next ≤ p'.next
  pub valid : ValidCells p'.next p'.cells
  pub objects : (q : Ptr) → q < p.next → has q touched ≡ false → p'.cells q ≡ p.cells q
  pub errors : (i : ℕ) → has i threads ≡ false → p'.errors i ≡ p.errors i

module _ (sdk : Sdk) where
  turn-Apart :
      (i : ℕ) (c : Call sdk) (p p' : Process sdk.Env (Block sdk)) (r : Reply)
      → ValidCells p.next p.cells
      → turn i (perform sdk c) p ≡ some (r, p')
      → Apart (i ∷ []) (handles c) p p'
  unfolding turn
  turn-Apart i c p p' r v e = elim (Option-cases (perform sdk c (enter i p))) [
    | inl stuck ↦ cc (rw (stuck, turn) at e)
    | inr ((r', w), run) ↦
        let s = perform-Steps sdk c (enter i p) w r' v run in
        let there : Apart (i ∷ []) (handles c) p (leave i p w) = record {
          grows = s.grows;
          valid = s.fits.valid;
          objects = s.frame;
          errors = λ j o. ground arith;
        } in
        subst (Apart (i ∷ []) (handles c) p) (returned (rw (run, turn) at e)) there
  ]

  Apart-then :
      {is js : List ℕ} {xs ys : List Ptr} {p q r : Process sdk.Env (Block sdk)}
      → Apart is xs p q
      → Apart js ys q r
      → Apart (is ++ js) (xs ++ ys) p r
  Apart-then {is} {js} {xs} {ys} {p} {q} {r} a b = record {
    grows = omega (arith, a.grows, b.grows);
    valid = b.valid;
    objects = λ x lt o.
        b.objects x (omega (arith, a.grows)) (ground (arith, has-append x xs ys))
        ∙ a.objects x lt (ground (arith, has-append x xs ys));
    errors = λ i o.
        b.errors i (ground (arith, has-append i is js))
        ∙ a.errors i (ground (arith, has-append i is js));
  }

  -- Threads that take turns, in any order, from a valid memory, if all their calls return: the
  -- memory is valid again, an object that was there before and whose handle no turn was given to
  -- own or to use as an owner stands unchanged, and so does the last error of each thread that had
  -- no turn.
  pub interleave-Apart :
      (turns : List (ℕ × Call sdk)) (p p' : Process sdk.Env (Block sdk)) (rs : List Reply)
      → ValidCells p.next p.cells
      → interleave sdk turns p ≡ some (rs, p')
      → Apart (threads_of turns) (handles_of turns) p p'
  unfolding interleave
  interleave-Apart [] p p' rs v e =
      subst (Apart [] [] p) (returned e)
        (record { grows = omega arith; valid = v; objects = λ q lt o. refl; errors = λ i o. refl })
  interleave-Apart ((i, c) ∷ turns) p p' rs v e = elim (Option-cases (turn i (perform sdk c) p)) [
    | inl stuck ↦ cc (rw (stuck, ◌>>=◌) at e)
    | inr ((r, q), run) ↦
        let first = turn-Apart i c p q r v run in
        elim (Option-cases (interleave sdk turns q)) [
          | inl stuck ↦ cc (rw (run, stuck, ◌>>=◌) at e)
          | inr ((rest, q'), run') ↦
              subst (Apart (i ∷ threads_of turns) (handles_of ((i, c) ∷ turns)) p)
                (returned (rw (run, run', ◌>>=◌) at e))
                (Apart-then first (interleave-Apart turns q q' rest first.valid run'))
        ]
  ]
