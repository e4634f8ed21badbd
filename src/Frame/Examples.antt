-- ===== src/Frame/Examples.antt =====
-- Frames in pieces, and the theorems at concrete inputs.
use streaming_platform.Prelude.{ℕ, ◌≡◌, refl, arith, true, List, [], ◌∷◌, replicate}
use streaming_platform.Text.{Bytes, codes}
use streaming_platform.Protocol.Wire.{put_u32}
use streaming_platform.Frame.{wrap_frame, write_frame}
use streaming_platform.Frame.Properties.{Framed, write_frame-Framed, write_frame-ok}

abbrev hello : Bytes
hello = codes "hello"

abbrev ones : List ℕ
ones = replicate 9 1

wrapped : wrap_frame hello ≡ 0 ∷ 0 ∷ 0 ∷ 5 ∷ codes "hello"
unfolding wrap_frame put_u32
wrapped = refl

write_frame-Framed_example : Framed hello (write_frame (3 ∷ 0 ∷ []) hello)
write_frame-Framed_example = write_frame-Framed (3 ∷ 0 ∷ []) hello

write_frame-ok_example : (write_frame ones hello).ok ≡ true
write_frame-ok_example = write_frame-ok ones hello (omega arith) (omega arith)
