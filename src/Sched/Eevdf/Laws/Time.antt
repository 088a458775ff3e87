-- ===== src/Sched/Eevdf/Laws/Time.antt =====
-- kernel/scheduler/eevdf.c: how virtual time moves.
use lettuce_os.Base.{ℕ, ◌≤◌, ◌≡◌, ◌≢◌, ◌⊎◌, some, arith}
use lettuce_os.Task.Table.{Task}
use lettuce_os.Sched.State.{Sched, task_at}
use lettuce_os.Sched.Eevdf.{align, calc_deadline, calc_vslice, weight_of}

-- A task that wakes or becomes ready has no credit for the time it was away: its virtual runtime
-- becomes the larger of the system's virtual time and what it was. Its deadline is computed anew from that,
-- and no other task and no other field is touched.
pub align_lem :
    (s : Sched) (i : ℕ)
    → let t = task_at s i in
      let t' = task_at (align s (some i)) i in
      (s.vsys ≤ t'.vruntime)
      × (t.vruntime ≤ t'.vruntime)
      × ((t'.vruntime ≡ s.vsys) ⊎ (t'.vruntime ≡ t.vruntime))
      × (t'.vdeadline ≡ calc_deadline t')
      × (t'.state ≡ t.state)
      × ((align s (some i)).vsys ≡ s.vsys)
      × ((j : ℕ) → j ≢ i → task_at (align s (some i)) j ≡ task_at s j)
unfolding align calc_deadline
align_lem s i = ground arith

-- The virtual length of a slice falls as the weight grows.
pub calc_vslice_antitone :
    (t u : Task)
    → t.requested_slice_ticks ≡ u.requested_slice_ticks
    → weight_of t ≤ weight_of u
    → calc_vslice u ≤ calc_vslice t
unfolding calc_vslice
calc_vslice_antitone t u same heavier = grind arith
