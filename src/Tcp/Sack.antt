-- ===== src/Tcp/Sack.antt =====
-- `tcp_calculate_sacks` of src/tcp.c, and `tcp_parse_opts` of src/tcp_input.c.
pub mod Options
use hf_ip.Prelude.{
  Bool, List, [], drop, false, get_or, if◌then◌else◌, leb, ltb, set, suc, true, zero, ℕ, ◌&&◌, ◌*◌,
  ◌+◌, ◌==◌, ◌||◌, ◌∷◌,
}
use hf_ip.Word.{swap16, u8}
use hf_ip.Packet.{Tcphdr, at16, at8}
use hf_ip.SkBuff.{SkBuff}
use hf_ip.Tcp.{Conn, SackBlock}
use hf_ip.Tcp.Header.{zero_block}

-- The variables of the loop of `tcp_calculate_sacks`: the index of the block `sb`, `sacklen` and
-- the blocks. An index from 4 on is outside the array.
pub record SackScan : Type 0 where
  pub index : ℕ
  pub len : ℕ
  pub blocks : List SackBlock

-- The first test of a round: an unused block starts at this buffer.
unfoldable pub sack_start : SkBuff → SackScan → SackScan
sack_start next s =
    let sb = get_or s.blocks s.index zero_block in
    if sb.left == 0
    then record s {
      blocks = set s.blocks s.index (record sb { left = next.seq });
      len = u8 (s.len + 1);
    }
    else s

-- The rest of a round, and whether the loop goes on.
unfoldable pub sack_extend : ℕ → SkBuff → SackScan → SackScan × Bool
sack_extend allowed next s =
    let sb = get_or s.blocks s.index zero_block in
    let new : SackBlock = record { left = next.seq; right = next.end_seq } in
    if sb.right == 0 || sb.right == next.seq
    then (record s { blocks = set s.blocks s.index (record sb { right = next.end_seq }) }, true)
    else (if leb allowed s.len then (s, false) else (
      record { index = s.len; len = u8 (s.len + 1); blocks = set s.blocks s.len new },
      true,
    ))

unfoldable pub sack_loop : ℕ → List SkBuff → SackScan → SackScan
sack_loop allowed [] s = s
sack_loop allowed (next ∷ rest) s =
    let (s', more) = sack_extend allowed next (sack_start next s) in
    let go = sack_loop allowed rest s' in if more then go else s'

unfoldable pub tcp_calculate_sacks : Conn → Conn
tcp_calculate_sacks c =
    let s =
      sack_loop c.sacks_allowed c.ofo_queue.head (record {
        index = c.sacklen;
        len = c.sacklen;
        blocks = set c.sacks c.sacklen zero_block;
      }) in
    record c { sacklen = s.len; sacks = s.blocks }

-- The variables of the loop of `tcp_parse_opts`: the bytes at `ptr`, `optlen`, the two marks, and
-- the connection's MSS.
pub record OptScan : Type 0 where
  pub ptr : List ℕ
  pub optlen : ℕ
  pub sack_seen : Bool
  pub tsopt_seen : Bool
  pub smss : ℕ

-- The `switch` on the byte at `ptr`: only the MSS and NOOP options move `ptr`.
unfoldable pub opt_step : OptScan → OptScan
opt_step s =
    let kind = at8 s.ptr 0 in
    let mss = swap16 (at16 s.ptr 2) in
    let one = u8 (s.optlen + 255) in
    if kind == 2
    then record s {
      smss = if ltb 536 mss && leb mss 1460 then mss else s.smss;
      ptr = drop 4 s.ptr;
      optlen = u8 (s.optlen + 252);
    }
    else (if kind == 1
        then record s { ptr = drop 1 s.ptr; optlen = one }
        else (if kind == 4
            then record s { sack_seen = true; optlen = one }
            else (if kind == 8
                then record s { tsopt_seen = true; optlen = one }
                else record s { optlen = one })))

-- `while (optlen > 0 && optlen < 20)`
abbrev pub opt_more : OptScan → Bool
opt_more s = ltb 0 s.optlen && ltb s.optlen 20

unfoldable pub opt_loop : ℕ → OptScan → OptScan
opt_loop zero s = s
opt_loop (suc rounds) s = let rest = opt_loop rounds (opt_step s) in if opt_more s then rest else s

-- Twenty rounds are enough (`Options`).
unfoldable pub tcp_parse_opts : Conn → Tcphdr → Conn
tcp_parse_opts c th =
    let s = opt_loop 20 (record {
      ptr = th.body;
      optlen = u8 (th.hl * 4 + 236);
      sack_seen = false;
      tsopt_seen = false;
      smss = c.smss;
    }) in
    let tsopt = s.tsopt_seen && c.tsopt in
    let allowed = s.sack_seen && c.sackok in
    record c {
      smss = s.smss;
      tsopt = tsopt;
      sackok = allowed;
      sacks_allowed = if allowed then (if tsopt then 3 else 4) else c.sacks_allowed;
    }
