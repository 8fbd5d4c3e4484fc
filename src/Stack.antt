-- ===== src/Stack.antt =====
-- include/atomkv/stack.h: detail::Stack, the path that a tree iterator keeps. A full array is an assertion in the
-- code; the model's array has no end.
pub mod Contents
use atomkv.Prelude.{ℕ, zero, suc, ◌+◌, ◌-◌, Bool, ◌==◌, if◌then◌else◌}

pub record Stack {ℓ} (T : Type ℓ) : Type ℓ where
  pub array : ℕ → T
  pub cur_pos : ℕ

module _ {ℓ} {T : Type ℓ} where
  -- array_[i] = value
  abbrev pub set_at : (ℕ → T) → ℕ → T → ℕ → T
  set_at array i value j = if j == i then value else array j

  -- The loop of operator=, from element `i` on.
  unfoldable pub copy_loop : ℕ → ℕ → (ℕ → T) → (ℕ → T) → ℕ → T
  copy_loop zero i right array = array
  copy_loop (suc rounds) i right array = copy_loop rounds (i + 1) right (set_at array i (right i))

  -- operator=(const Stack& right)
  unfoldable pub copy_from : Stack T → Stack T → Stack T
  unfolding copy_loop
  copy_from right s = record {
    array = copy_loop right.cur_pos 0 right.array s.array;
    cur_pos = right.cur_pos;
  }

  -- operator=(Stack&& right): this stack, and what is left of the other.
  unfoldable pub move_from : Stack T → Stack T → Stack T × Stack T
  unfolding copy_from
  move_from right s = (copy_from right s, record right { cur_pos = 0 })

  unfoldable pub front : Stack T → T
  front s = s.array (s.cur_pos - 1)

  unfoldable pub push_back : T → Stack T → Stack T
  push_back value s = record { array = set_at s.array s.cur_pos value; cur_pos = s.cur_pos + 1 }

  unfoldable pub pop_back : Stack T → Stack T
  pop_back s = record s { cur_pos = s.cur_pos - 1 }

  unfoldable pub clear : Stack T → Stack T
  clear s = record s { cur_pos = 0 }

  unfoldable pub empty : Stack T → Bool
  empty s = s.cur_pos == 0

  unfoldable pub at_pos : Stack T → ℕ → T
  at_pos s pos = s.array pos
