-- ===== src/Errors/Tests.antt =====
-- src/base.c: concrete runs.
use molerat.Base.{◌≡◌, refl, sym, arith, [], ◌∷◌, ◌||◌, ◌==◌, ok, some}
use molerat.Errors.{Heap, allocated_message}
use molerat.Errors.Lifetimes.{copies, run, after, IsOwned, run-IsOwned}

-- The errors 1 and 2 are in use, each with a message.
abbrev heap : Heap
heap = record {
  error = λ e. record { category = 1; message = allocated_message e };
  allocated = λ a. (a == 1) || (a == 2);
  text = λ a. 104 ∷ 105 ∷ [];
}

heap-IsOwned : IsOwned (λ e. (e == 1) || (e == 2)) heap
heap-IsOwned = (
  λ a. a,
  record {
    held = λ e a l s m. let k : e ≡ a = cc in ground arith;
    owned = λ e a l s m. let k : e ≡ a = cc in sym k;
    owner_live = λ a q. q;
    owner_set = λ a q. refl;
    owner_message = λ a q. refl;
  },
)

run-IsOwned_example :
    (h : Heap) × (run [] (copies (some 7) 1 2) heap ≡ ok h)
    × IsOwned (after (copies (some 7) 1 2) (λ e. (e == 1) || (e == 2))) h
run-IsOwned_example =
    run-IsOwned [] (copies (some 7) 1 2) (λ e. (e == 1) || (e == 2)) heap heap-IsOwned
      (refl, refl, refl, (λ s e. cc), λ x e. let k : x ≡ 7 = cc in ground arith)
