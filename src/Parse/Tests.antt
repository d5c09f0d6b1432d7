-- ===== src/Parse/Tests.antt =====
-- Examples for src/common/parse.c.
use nvme_dem.Prelude.{◌≡◌, ◌<◌, refl, [], ◌∷◌, arith, codes, length, some, pos, ◌⊎◌, true}
use nvme_dem.Parse.Stream.{Stream, past, consume_line, is_whitespace, is_quote, is_eol}
use nvme_dem.Parse.Line.{ok, parse_line}
use nvme_dem.Parse.Addr.{addr, atoi, string_to_addr}
use nvme_dem.Parse.Resync.{consume_line-parse_line}
use nvme_dem.Parse.Progress.{parse_line_progress}
use nvme_dem.Parse.Accept.{FitsIn, parse_line_accepts, parse_line_fits}
use nvme_dem.Parse.Dotted.{string_to_addr-join, join}

-- Three lines: one with a comment, one without a value, one in order.
abbrev file : Stream
file = past (codes "a = b # c\nd =\ne = f\n")

consume_line-parse_line_example : (parse_line 8 8 file).stream ≡ consume_line file
consume_line-parse_line_example = consume_line-parse_line 8 8 file (ground arith)

parse_line_progress_example :
    ((parse_line 8 8 file).stream.eof ≡ true)
    ⊎ (length (parse_line 8 8 file).stream.rest < length file.rest)
parse_line_progress_example = parse_line_progress 8 8 file

parse_line_accepts_example : parse_line 16 32 (past (codes " Type = rdma\nnext")) ≡ record {
  status = ok;
  tag = some (codes "Type");
  value = some (codes "rdma");
  stream = past (codes "next");
}
unfolding is_whitespace is_quote is_eol
parse_line_accepts_example =
    parse_line_accepts 32 b'r' (codes "dma") (codes "next") (refl, (refl, (refl, (refl, tt))))
      (omega arith) 16 b'T' (codes "ype") (refl, (refl, (refl, (refl, tt)))) (omega arith) (32 ∷ [])
      (32 ∷ []) (32 ∷ []) (refl, tt) (refl, tt) (refl, tt)

parse_line_fits_example :
    FitsIn 2 (parse_line 2 3 (past (codes "transport = loop\n"))).tag
    × FitsIn 3 (parse_line 2 3 (past (codes "transport = loop\n"))).value
parse_line_fits_example =
    parse_line_fits 2 3 (past (codes "transport = loop\n")) (omega arith) (omega arith)

string_to_addr-join_example :
    string_to_addr 4 3 b'.' (codes "192.168.0.1")
    ≡ addr (pos 0) (pos 192 ∷ pos 168 ∷ pos 0 ∷ pos 1 ∷ []) (codes "192.168.0.1")
unfolding join atoi
string_to_addr-join_example =
    string_to_addr-join 3 b'.' (codes "192") (codes "168" ∷ codes "0" ∷ codes "1" ∷ [])
      (
        ((refl, (refl, (refl, tt))), omega arith, omega arith),
        (
          ((refl, (refl, (refl, tt))), omega arith, omega arith),
          (((refl, tt), omega arith, omega arith), (((refl, tt), omega arith, omega arith), tt)),
        ),
      )
      (omega arith) refl
