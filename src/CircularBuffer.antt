-- ===== src/CircularBuffer.antt =====
-- margot/include/margot/circular_buffer.hpp: class CircularBuffer, the window of the last observations of
-- a monitor. The mutex makes each method atomic and is left out; the clock is an argument.
pub mod Window
pub mod Slots
mod Tests
use margot_project.Base.{
  ℕ, suc, zero, ◌-◌, ltb, ◌==◌, if◌then◌else◌, Bool, is_empty, List, [], ◌∷◌, ◌++◌, Option, none,
  some, length,
}

pub record CircularBuffer (A : Type 0) : Type 0 where
  pub buffer : List A
  pub last_change : ℕ
  pub next_element : ℕ
  pub maximum_number_element : ℕ

module _ {A : Type 0} where
  -- The constructor
  unfoldable pub make : ℕ → ℕ → CircularBuffer A
  make now size = record {
    buffer = [];
    last_change = now;
    next_element = 0;
    maximum_number_element = size;
  }

  -- `buffer[i] = new_value`. Nothing is said about an index that is out of range: it stays as it is.
  unfoldable pub set_at : ℕ → A → List A → List A
  set_at i new_value [] = []
  set_at zero new_value (x ∷ xs) = new_value ∷ xs
  set_at (suc i) new_value (x ∷ xs) = x ∷ set_at i new_value xs

  -- `buffer[i]` and `buffer.back()`, where they exist.
  unfoldable pub get_elem? : List A → ℕ → Option A
  get_elem? [] i = none
  get_elem? (x ∷ xs) zero = some x
  get_elem? (x ∷ xs) (suc i) = get_elem? xs i

  unfoldable pub back : List A → Option A
  back [] = none
  back (x ∷ xs) = elim xs [ [] ↦ some x | y ∷ ys ↦ back xs ]

  -- `push(new_value)`
  unfoldable pub push : ℕ → A → CircularBuffer A → CircularBuffer A
  push now new_value b =
      if ltb (length b.buffer) b.maximum_number_element
      then record b { buffer = b.buffer ++ (new_value ∷ []); last_change = now }
      else record b {
        buffer = set_at b.next_element new_value b.buffer;
        next_element =
            if suc b.next_element == b.maximum_number_element then 0 else suc b.next_element;
        last_change = now;
      }

  -- `clear()`
  unfoldable pub clear : ℕ → CircularBuffer A → CircularBuffer A
  clear now b = record b { next_element = 0; buffer = []; last_change = now }

  -- `empty()`, `full()`, `size()` and `valid()`
  unfoldable pub empty : CircularBuffer A → Bool
  empty b = is_empty b.buffer

  unfoldable pub full : CircularBuffer A → Bool
  full b = length b.buffer == b.maximum_number_element

  unfoldable pub size : CircularBuffer A → ℕ
  size b = length b.buffer

  unfoldable pub valid : CircularBuffer A → Bool
  valid b = length b.buffer == b.maximum_number_element

  -- `last()`; `none` is the assertion that there is one.
  unfoldable pub last : CircularBuffer A → Option A
  last b = if b.next_element == 0 then back b.buffer else get_elem? b.buffer (b.next_element - 1)
