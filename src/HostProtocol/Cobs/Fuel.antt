-- ===== src/HostProtocol/Cobs/Fuel.antt =====
-- The loop of `cobsDecode` of lib/host_protocol/src/host_protocol.h ends.
use argus_redline.Base.{ℕ, zero, suc, ◌-◌, ◌≤◌, ◌≡◌, refl, arith, List, [], ◌∷◌, length, drop}
use argus_redline.HostProtocol.Cobs.{Result, ok, err, ◌>>=◌, decode_block, decode_blocks}

length_drop : (n : ℕ) (xs : List ℕ) → length (drop n xs) ≤ length xs
length_drop zero xs = omega arith
length_drop (suc n) [] = omega arith
length_drop (suc n) (x ∷ xs) = omega (arith, length_drop n xs)

next_equal :
    (r : Result (List ℕ)) (f g : List ℕ → Result (List ℕ))
    → ((written : List ℕ) → f written ≡ g written)
    → (r >>= f) ≡ (r >>= g)
next_equal (ok written) f g h = h written
next_equal (err e) f g h = refl

-- Fuel of the input's length is enough: more of it makes no difference, whatever the input.
decode_blocks-fuel :
    (m n capacity : ℕ) (input written : List ℕ)
    → length input ≤ n
    → n ≤ m
    → decode_blocks m capacity input written ≡ decode_blocks n capacity input written
unfolding decode_blocks
decode_blocks-fuel m n capacity [] written h l = refl
decode_blocks-fuel m zero capacity (code ∷ input) written h l = absurd (omega arith)
decode_blocks-fuel zero (suc n) capacity (code ∷ input) written h l = absurd (omega arith)
decode_blocks-fuel (suc m) (suc n) capacity (code ∷ input) written h l =
    next_equal (decode_block capacity code input written) _ _ λ w.
      decode_blocks-fuel m n capacity (drop (code - 1) input) w
        (omega (arith, length_drop (code - 1) input)) (omega arith)
