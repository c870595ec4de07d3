-- ===== src/Controller/Resources/Disruption.antt =====
-- How many pods a PodDisruptionBudget lets go (internal/controller/resources.go:
-- PodDisruptionBudgetFor).
use k8s_buddy.Common.{◌≡◌, arith, pos, ℕ, zero, suc, ◌+◌, ◌≤◌}
use k8s_buddy.Plant.{Plant}
use k8s_buddy.Controller.Resources.{replicas_for}
use k8s_buddy.Controller.Resources.Companions.{min_available_for}

-- The budget of a Plant with no negative number of replicas asks for at least one pod, so that a single
-- one is never evicted; it lets at most one go; and from two replicas on it lets one go, so that a node
-- can be drained.
pub min_available_for-bounds :
    (p : Plant) (n : ℕ)
    → replicas_for p ≡ pos n
    → (m : ℕ) × (min_available_for p ≡ pos m) × (1 ≤ m) × (n ≤ m + 1) × (2 ≤ n → m + 1 ≤ n)
unfolding min_available_for
min_available_for-bounds p zero h =
    (1, ground (arith, h), omega arith, omega arith, λ k. omega arith)
min_available_for-bounds p (suc zero) h =
    (1, ground (arith, h), omega arith, omega arith, λ k. omega arith)
min_available_for-bounds p (suc (suc n)) h =
    (suc n, ground (arith, h), omega arith, omega arith, λ k. omega arith)
