-- ===== src/Vfs/Tests.antt =====
-- The path "C:\d" at 100, with the buffer at 200.
use gravityos.Base.{◌+◌, ◌-◌, ◌≡◌, refl, arith, min, [], ◌∷◌, get_or, inl, not, ◌==◌, true}
use gravityos.Base.Bits.{every_below, every_below-lt}
use gravityos.Strings.{Bytes}
use gravityos.Strings.Terminated.{IsString}
use gravityos.Vfs.{vfs_normalize_path}
use gravityos.Vfs.Normal.{Normalized, normalize_path-Normalized}

abbrev memory : Bytes
memory x = get_or (b'C' ∷ b':' ∷ 92 ∷ b'd' ∷ []) (x - 100) 0

goes_on : every_below (λ i. not (memory (100 + i) == 0)) 4 ≡ true
unfolding every_below
goes_on = refl

memory-IsString : IsString memory 100 4
memory-IsString = record {
  stop = refl;
  body = λ i lt. ground (arith, every_below-lt _ goes_on i lt);
}

normalize_path-Normalized_example :
    Normalized 100 200 0 (min 4 255) 255 memory (vfs_normalize_path 100 200 memory)
normalize_path-Normalized_example =
    normalize_path-Normalized 100 200 4 memory (inl (omega arith)) memory-IsString
