-- ===== src/Listing/Watching.antt =====
-- listable_rest.go: a watcher in all orders of its steps.
use cert_manager_webhook_mij.Prelude.{
  Bool, true, false, not, ◌||◌, ◌≡◌, ◌⊎◌, inl, inr, Bool-cases, arith,
}
use cert_manager_webhook_mij.Listing.{
  BlockingWatcher, new_blocking_watcher, stop, finish, Step, stopping, cancelled, finishing, Reach,
  here, next,
}

pub record IsSound (w : BlockingWatcher) : Type 0 where
  pub no_panic : w.panicked ≡ false
  pub once : w.stop_closed ≡ w.stopped_once
  pub open_while_waiting : w.result_closed ≡ not w.waiting
  pub closed_for_a_reason : w.result_closed ≡ true → w.context_over || w.stop_closed ≡ true

Step-IsSound : {v u : BlockingWatcher} → Step v u → IsSound v → IsSound u
unfolding stop finish
Step-IsSound (stopping w) h = ground arith
Step-IsSound (cancelled w) h = ground arith
Step-IsSound (finishing w ready) h = ground arith

Reach-IsSound : {w v : BlockingWatcher} → IsSound w → Reach w v → IsSound v
Reach-IsSound h here = h
Reach-IsSound h (next steps step) = Step-IsSound step (Reach-IsSound h steps)

new-IsSound : (over : Bool) → IsSound (new_blocking_watcher over)
unfolding new_blocking_watcher
new-IsSound over = ground arith

finish_closes : (w : BlockingWatcher) → (finish w).result_closed ≡ true
unfolding finish
finish_closes w = ground arith

-- However often a watcher is stopped, and whenever its context ends, no channel is closed twice, and
-- the result channel is closed only after one of them. At any time neither has happened, or the
-- channel is closed, or its goroutine has a step that closes it.
pub watcher-IsSound :
    (over : Bool) {w : BlockingWatcher}
    → Reach (new_blocking_watcher over) w
    → IsSound w
      × (((w.context_over || w.stop_closed) ≡ false)
          ⊎ ((w.result_closed ≡ true)
              ⊎ ((v : BlockingWatcher) × Step w v × (v.result_closed ≡ true))))
watcher-IsSound over {w} steps =
    let sound = Reach-IsSound (new-IsSound over) steps in
    (
      sound,
      elim (Bool-cases (w.context_over || w.stop_closed)) [
        | inr neither ↦ inl neither
        | inl reason ↦ elim (Bool-cases w.waiting) [
          | inl waiting ↦
              inr (inr (finish w, finishing w (ground (arith, waiting, reason)), finish_closes w))
          | inr ended ↦ inr (inl (ground (arith, ended, sound.open_while_waiting)))
        ]
      ],
    )
