-- ===== src/Api/Window/Ring.antt =====
-- The window holds the last hundred observations (internal/api/window.go).
use mathlib.Core.List.{append-nil, append_assoc}
use native.Mathlib.Decide.{ℕ_discrete}
use k8s_buddy.Common.{
  ℕ, ◌+◌, ◌%◌, ◌≤◌, ◌<◌, min, ◌≡◌, refl, sym, ◌∙◌, List, [], ◌∷◌, ◌++◌, arith, length, get_elem?,
  set, length-append, length-set, get_elem?-set_self, get_elem?-set_ne, get_elem?-append_left,
  get_elem?-append_length,
}
use k8s_buddy.Api.Window.{WorkObservation, WorkWindow, work_window_size, zero_window, observe}

-- The window after observations `seen`, oldest first: the one with number k is at k mod 100, if it is
-- among the last hundred.
pub record Holds (w : WorkWindow) (seen : List WorkObservation) : Type 0 where
  pub sized : length w.buf ≡ work_window_size
  pub position : w.next ≡ length seen % work_window_size
  pub counted : w.count ≡ min work_window_size (length seen)
  pub kept :
      (k : ℕ)
      → k < length seen
      → length seen ≤ k + work_window_size
      → get_elem? w.buf (k % work_window_size) ≡ get_elem? seen k

unfoldable pub observe_all : List WorkObservation → WorkWindow → WorkWindow
observe_all [] w = w
observe_all (o ∷ os) w = observe_all os (observe o.duration o.failed w)

pub observe_all-append :
    (os : List WorkObservation) (o : WorkObservation) (w : WorkWindow)
    → observe_all (os ++ o ∷ []) w ≡ observe o.duration o.failed (observe_all os w)
unfolding observe_all
observe_all-append [] o w = refl
observe_all-append (p ∷ os) o w = observe_all-append os o (observe p.duration p.failed w)

zero_window-Holds : Holds zero_window []
unfolding zero_window
zero_window-Holds = record {
  sized = refl;
  position = refl;
  counted = refl;
  kept = λ k h _. elim h [ ];
}

-- The write at `next` keeps the recent entries and adds the new one.
observe-kept :
    (o : WorkObservation) (w : WorkWindow) (seen : List WorkObservation)
    → Holds w seen
    → (k : ℕ) → k < length (seen ++ o ∷ [])
    → length (seen ++ o ∷ []) ≤ k + work_window_size
    → get_elem? (set w.buf w.next o) (k % work_window_size) ≡ get_elem? (seen ++ o ∷ []) k
observe-kept o w seen h k below recent = elim (ℕ_discrete k (length seen)) [
  | yes e ↦
      rw (e, h.position, get_elem?-append_length seen o)
        (get_elem?-set_self w.buf (length seen % work_window_size) o (omega (arith, h.sized)))
  | no n ↦
      get_elem?-set_ne w.buf w.next (k % work_window_size) o
        (λ e. omega (arith, e, h.position, length-append seen (o ∷ [])))
      ∙ (h.kept k (omega (arith, length-append seen (o ∷ [])))
            (omega (arith, length-append seen (o ∷ [])))
          ∙ sym
              (get_elem?-append_left seen (o ∷ []) k (omega (arith, length-append seen (o ∷ [])))))
]

observe-Holds :
    (o : WorkObservation) (w : WorkWindow) (seen : List WorkObservation)
    → Holds w seen
    → Holds (observe o.duration o.failed w) (seen ++ o ∷ [])
unfolding observe
observe-Holds o w seen h = record {
  sized = length-set w.buf w.next o ∙ h.sized;
  position = omega (arith, h.position, length-append seen (o ∷ []));
  counted = ground (arith, h.counted, length-append seen (o ∷ []));
  kept = λ k. observe-kept o w seen h k;
}

observe_all-Holds :
    (os : List WorkObservation) (w : WorkWindow) (seen : List WorkObservation)
    → Holds w seen
    → Holds (observe_all os w) (seen ++ os)
unfolding observe_all
observe_all-Holds [] w seen h = rw append-nil h
observe_all-Holds (o ∷ os) w seen h = rw (append_assoc seen (o ∷ []) os) at (
    observe_all-Holds os (observe o.duration o.failed w) (seen ++ o ∷ [])
      (observe-Holds o w seen h))

-- After any observations on a fresh window, `count` is their number up to a hundred, and each of the
-- last hundred, and no older one, stands in the buffer at its number modulo a hundred.
pub observe_all-zero_window : (os : List WorkObservation) → Holds (observe_all os zero_window) os
observe_all-zero_window os = observe_all-Holds os zero_window [] zero_window-Holds
