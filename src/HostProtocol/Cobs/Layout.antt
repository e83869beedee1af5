-- ===== src/HostProtocol/Cobs/Layout.antt =====
-- The array of `cobsEncode` (lib/host_protocol/src/host_protocol.h) while its loop runs: the finished
-- blocks, the place of the open block's code, the open block, and the rest.
use argus_redline.Base.{
  ℕ, suc, ◌+◌, ◌<◌, ◌≡◌, refl, sym, ap, ◌∙◌, arith, false, List, [], ◌∷◌, ◌++◌, leb, length, set,
  take, set-append, take-append, length-append, append_assoc,
}
use argus_redline.HostProtocol.Cobs.{Encoder, ok, start_block, append, finish}

abbrev pub layout : List ℕ → ℕ → List ℕ → List ℕ → Encoder
layout done hole block rest = record {
  output = done ++ (hole ∷ (block ++ rest));
  code_index = length done;
  write_index = length done + suc (length block);
  code = length block + 1;
}

set_here : (xs ys : List ℕ) (y v : ℕ) → set (xs ++ (y ∷ ys)) (length xs) v ≡ xs ++ (v ∷ ys)
set_here [] ys y v = refl
set_here (x ∷ xs) ys y v = ap (λ (t : List ℕ). x ∷ t) (set_here xs ys y v)

set_after :
    (xs zs ys : List ℕ) (h y v : ℕ)
    → set (xs ++ (h ∷ (zs ++ (y ∷ ys)))) (length xs + suc (length zs)) v
      ≡ xs ++ (h ∷ (zs ++ (v ∷ ys)))
set_after xs zs ys h y v =
    set-append (length xs) (suc (length zs)) xs (h ∷ (zs ++ (y ∷ ys))) v refl
    ∙ ap (λ (t : List ℕ). xs ++ (h ∷ t)) (set_here zs ys y v)

abbrev encoder : List ℕ → ℕ → ℕ → ℕ → Encoder
encoder o i w c = record { output = o; code_index = i; write_index = w; code = c }

same :
    {o o' : List ℕ} {i i' w w' c c' : ℕ}
    → o ≡ o'
    → i ≡ i'
    → w ≡ w'
    → c ≡ c'
    → encoder o i w c ≡ encoder o' i' w' c'
same p q r s = λ k. record { output = p k; code_index = q k; write_index = r k; code = s k }

pub append-layout :
    (done block rest : List ℕ) (hole y v : ℕ)
    → length block < 254
    → append v (layout done hole block (y ∷ rest)) ≡ layout done hole (block ++ (v ∷ [])) rest
unfolding append
append-layout done block rest hole y v h =
    same
      (set_after done block rest hole y v
        ∙ ap (λ (t : List ℕ). done ++ (hole ∷ t)) (sym (append_assoc block (v ∷ []) rest)))
      refl (omega (arith, length-append block (v ∷ [])))
      (omega (arith, length-append block (v ∷ [])))

pub room : (capacity n : ℕ) → n < capacity → leb capacity n ≡ false
room capacity n h = ground arith

pub start_block-layout :
    (capacity : ℕ) (done block rest : List ℕ) (hole y : ℕ)
    → length done + suc (length block) < capacity
    → start_block capacity (layout done hole block (y ∷ rest))
      ≡ ok (layout (done ++ ((length block + 1) ∷ block)) y [] rest)
unfolding start_block
start_block-layout capacity done block rest hole y h = rw (room capacity _ h) (
    ap ok (
      same
        (set_here done (block ++ (y ∷ rest)) hole (length block + 1)
          ∙ sym (append_assoc done ((length block + 1) ∷ block) (y ∷ rest)))
        (sym (length-append done ((length block + 1) ∷ block)))
        (omega (arith, length-append done ((length block + 1) ∷ block))) refl))

pub finish-layout :
    (capacity : ℕ) (done block rest : List ℕ) (hole : ℕ)
    → length done < capacity
    → finish capacity (layout done hole block rest) ≡ ok (done ++ ((length block + 1) ∷ block))
unfolding finish
finish-layout capacity done block rest hole h = rw (room capacity _ h) (
    ap ok (
      ap (take _) (
        set_here done (block ++ rest) hole (length block + 1)
        ∙ sym (append_assoc done ((length block + 1) ∷ block) rest))
      ∙ take-append _ (done ++ ((length block + 1) ∷ block)) rest
          (length-append done ((length block + 1) ∷ block))))
