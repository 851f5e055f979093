-- ===== src/Base/Utf8.antt =====
-- UTF-8 as Rust's standard library checks it. A `String` is the list of its bytes.
use netd.Base.{
  ℕ, zero, suc, ◌≤◌, ◌<◌, ◌≡◌, refl, Bool, true, false, ◌&&◌, Option, none, some, List, [], ◌∷◌,
  ◌++◌, arith, ltb, leb, ◌==◌, if◌then◌else◌, lt→ltb, length, take, drop, All,
}

abbrev between : ℕ → ℕ → ℕ → Bool
between lo hi b = leb lo b && leb b hi

abbrev is_continuation : ℕ → Bool
is_continuation = between 0x80 0xbf

-- The range of the second byte, which excludes overlong forms, surrogates and what is past U+10FFFF.
abbrev second_ok : ℕ → ℕ → Bool
second_ok b c =
    if b == 0xe0
    then between 0xa0 0xbf c
    else if b == 0xed
    then between 0x80 0x9f c
    else if b == 0xf0
    then between 0x90 0xbf c
    else if b == 0xf4
    then between 0x80 0x8f c
    else is_continuation c

-- How many continuation bytes the first byte asks for; 4 stands for a byte that starts nothing.
abbrev wanted : ℕ → ℕ
wanted b =
    if ltb b 0x80
    then 0
    else if between 0xc2 0xdf b
    then 1
    else if between 0xe0 0xef b
    then 2
    else if between 0xf0 0xf4 b
    then 3
    else 4

-- `continues n b rest` counts the bytes of `rest` that belong to the sequence that `b` starts, up to
-- the `n` that it needs, and says whether it has them all.
more_bytes : ℕ → List ℕ → ℕ × Bool
more_bytes zero rest = (0, true)
more_bytes (suc n) [] = (0, false)
more_bytes (suc n) (c ∷ rest) =
    let (k, whole) = more_bytes n rest in if is_continuation c then (suc k, whole) else (0, false)

after_first : ℕ → ℕ → List ℕ → ℕ × Bool
unfolding more_bytes
after_first zero b rest = (0, true)
after_first (suc n) b [] = (0, false)
after_first (suc n) b (c ∷ rest) =
    let (k, whole) = more_bytes n rest in if second_ok b c then (suc k, whole) else (0, false)

-- One chunk: how many bytes behind `b` it takes, and whether it is a whole character.
chunk : ℕ → List ℕ → ℕ × Bool
unfolding after_first
chunk b rest = let n = wanted b in if n == 4 then (0, false) else after_first n b rest

-- The fuel is the length of the text, which every chunk shortens.
is_utf8_loop : ℕ → List ℕ → Bool
unfolding chunk
is_utf8_loop fuel [] = true
is_utf8_loop zero (b ∷ rest) = false
is_utf8_loop (suc fuel) (b ∷ rest) =
    let (k, whole) = chunk b rest in let tail = is_utf8_loop fuel (drop k rest) in whole && tail

-- `str::from_utf8`
unfoldable pub from_utf8 : List ℕ → Option (List ℕ)
unfolding is_utf8_loop
from_utf8 v = if is_utf8_loop (length v) v then some v else none

-- The bytes of U+FFFD, which stands for each maximal piece that is no character.
abbrev replacement : List ℕ
replacement = 0xef ∷ 0xbf ∷ 0xbd ∷ []

lossy_loop : ℕ → List ℕ → List ℕ
unfolding chunk
lossy_loop fuel [] = []
lossy_loop zero (b ∷ rest) = []
lossy_loop (suc fuel) (b ∷ rest) =
    let (k, whole) = chunk b rest in
    (if whole then b ∷ take k rest else replacement) ++ lossy_loop fuel (drop k rest)

-- `String::from_utf8_lossy`
unfoldable pub from_utf8_lossy : List ℕ → List ℕ
unfolding lossy_loop
from_utf8_lossy v = lossy_loop (length v) v

-- ASCII is kept as it is.
lossy_loop_ascii :
    (fuel : ℕ) (v : List ℕ) → length v ≤ fuel → All (λ b. b < 0x80) v → lossy_loop fuel v ≡ v
unfolding lossy_loop
lossy_loop_ascii fuel [] h a = refl
lossy_loop_ascii zero (b ∷ v) h a = absurd (omega arith)
lossy_loop_ascii (suc fuel) (b ∷ v) h a =
    rw (lt→ltb b 0x80 a.0) (rw (lossy_loop_ascii fuel v (omega arith) a.1))

pub from_utf8_lossy_ascii : (v : List ℕ) → All (λ b. b < 0x80) v → from_utf8_lossy v ≡ v
unfolding from_utf8_lossy
from_utf8_lossy_ascii v a = lossy_loop_ascii (length v) v (omega arith) a
