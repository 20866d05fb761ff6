-- ===== src/WriteStream/Tests.antt =====
-- A stream that takes two bytes and then blocks.
use amiquip.Prelude.{ℕ, ◌≡◌, refl, List, [], ◌∷◌, length, min, ◌==◌, if◌then◌else◌, arith}
use amiquip.Errors.{ok}
use amiquip.WriteStream.{wrote, would_block, Stream, write_to_stream}
use amiquip.WriteStream.Conservation.{Writer, Conserves, write_to_stream-Conserves}

two_then_block : Stream
two_then_block k offered = if k == 0 then wrote (min 2 (length offered)) else would_block

two_then_block-Writer : Writer two_then_block
unfolding two_then_block
two_then_block-Writer = record {
  some_taken = λ k n offered some h. ground arith;
  not_more = λ k n offered h. ground arith;
}

abbrev five : List ℕ
five = 1 ∷ 2 ∷ 3 ∷ 4 ∷ 5 ∷ []

two_out :
    write_to_stream 6 two_then_block five
    ≡ record { result = ok tt; taken = 1 ∷ 2 ∷ []; outbuf = 3 ∷ 4 ∷ 5 ∷ [] }
unfolding write_to_stream two_then_block
two_out = refl

write_to_stream-Conserves_example : Conserves five five (write_to_stream 6 two_then_block five)
write_to_stream-Conserves_example =
    write_to_stream-Conserves two_then_block two_then_block-Writer 6 five (omega arith)
