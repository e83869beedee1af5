-- ===== src/EventStore/Generations.antt =====
-- The order of generations on a 32-bit counter that wraps.
use argus_redline.Base.{ℕ, ◌+◌, ◌^◌, ◌≡◌, arith, if◌then◌else◌, ltb, ◌==◌}
use argus_redline.Base.Words.{IsU32, u32}
use argus_redline.EventStore.{
  GenerationOrder, left_newer, right_newer, equal, ambiguous, compare_generations,
}

-- A counter that has been advanced `steps` times from `g`, with wrap-around, is equal to `g` for no
-- step, newer for fewer than 2 ^ 31 steps, ambiguous at 2 ^ 31 and older beyond that.
pub compare_generations_advanced :
    (g steps : ℕ)
    → IsU32 g
    → IsU32 steps
    → compare_generations (u32 (g + steps)) g ≡ (
        if steps == 0
        then equal
        else if ltb steps (2 ^ 31)
        then left_newer
        else if steps == 2 ^ 31
        then ambiguous
        else right_newer)
unfolding compare_generations
compare_generations_advanced g steps h k = ground arith

abbrev pub swap : GenerationOrder → GenerationOrder
swap left_newer = right_newer
swap right_newer = left_newer
swap equal = equal
swap ambiguous = ambiguous

-- The order does not depend on the side on which a generation stands.
pub compare_generations-swap :
    (l r : ℕ) → IsU32 l → IsU32 r → compare_generations r l ≡ swap (compare_generations l r)
unfolding compare_generations
compare_generations-swap l r h k = ground arith

pub compare_generations_next : (g : ℕ) → IsU32 g → compare_generations (u32 (g + 1)) g ≡ left_newer
compare_generations_next g h = compare_generations_advanced g 1 h (omega arith)

pub compare_generations_previous :
    (g : ℕ) → IsU32 g → compare_generations g (u32 (g + 1)) ≡ right_newer
unfolding compare_generations
compare_generations_previous g h = ground arith
