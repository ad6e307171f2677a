-- ===== src/Throughput/Window.antt =====
-- What mutex_ring and spsc_ring have in common: an array that holds a list from a position on.
use native.Mathlib.Nat.{mod-lt, mod-add-mod}
use low_latency_showcase.Prelude.{
  ℕ, suc, ◌+◌, ◌%◌, ◌≤◌, ◌<◌, ◌≡◌, sym, ap, ◌∙◌, List, [], ◌∷◌, ◌++◌, length, get_or, set,
  replicate, length-set, length-append, length-replicate, get_or-set_self, get_or-set_ne,
  get_or-append_left, get_or-append_self, arith, dec_lt,
}
use low_latency_showcase.Words.{mod-ne}

-- The slots from `from` on, round the end of the array, hold the list.
pub record IsWindow (capacity : ℕ) (values : List ℕ) (from : ℕ) (xs : List ℕ) : Type 0 where
  pub array : length values ≡ capacity
  pub fits : length xs ≤ capacity
  pub held : (j : ℕ) → j < length xs → get_or values ((from + j) % capacity) 0 ≡ get_or xs j 0

module _ {capacity : ℕ} where
  pub replicate-IsWindow : IsWindow capacity (replicate capacity 0) 0 []
  replicate-IsWindow = record {
    array = length-replicate capacity 0;
    fits = omega arith;
    held = λ j lt. absurd (omega arith);
  }

  pub set-IsWindow :
      (value : ℕ) {values : List ℕ} {from : ℕ} {xs : List ℕ}
      → IsWindow capacity values from xs
      → length xs < capacity
      → IsWindow capacity (set values ((from + length xs) % capacity) value) from (xs ++ value ∷ [])
  set-IsWindow value {values} {from} {xs} v room =
      let longer : length (xs ++ value ∷ []) ≡ length xs + 1 = length-append xs (value ∷ []) in
      let slot = (from + length xs) % capacity in
      let inside : slot < length values = rw v.array (mod-lt (from + length xs) (omega arith)) in
      record {
        array = length-set values slot value ∙ v.array;
        fits = rw longer (omega arith);
        held = λ j lt. elim (dec_lt j (length xs)) [
          | yes old ↦
              get_or-set_ne values slot ((from + j) % capacity) value 0 (λ e.
                mod-ne capacity (from + j) (from + length xs) (omega arith) (omega arith) (sym e))
              ∙ v.held j old
              ∙ sym (get_or-append_left xs (value ∷ []) j 0 old)
          | no new ↦
              let here : j ≡ length xs = omega (arith, rw longer at lt) in
              rw here (
                get_or-set_self values slot value 0 inside ∙ sym (get_or-append_self xs value [] 0))
        ];
      }

  pub advance-IsWindow :
      {values : List ℕ} {from x : ℕ} {xs : List ℕ}
      → IsWindow capacity values from (x ∷ xs)
      → IsWindow capacity values (from + 1) xs
  advance-IsWindow {values} {from} {x} {xs} v =
      let fits = v.fits in
      record {
        array = v.array;
        fits = omega arith;
        held = λ j lt.
            ap (λ k. get_or values (k % capacity) 0) (omega arith) ∙ v.held (suc j) (omega arith);
      }

  pub mod-IsWindow :
      {values : List ℕ} {from : ℕ} {xs : List ℕ}
      → IsWindow capacity values from xs
      → IsWindow capacity values (from % capacity) xs
  mod-IsWindow {values} {from} v = record {
    array = v.array;
    fits = v.fits;
    held = λ j lt. ap (λ k. get_or values k 0) (mod-add-mod from capacity j) ∙ v.held j lt;
  }
