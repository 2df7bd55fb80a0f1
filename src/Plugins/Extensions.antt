-- ===== src/Plugins/Extensions.antt =====
-- The reads of the plugins, and the walk over the extension headers of IPv6 (ext_chain of
-- crates/pktflow-plugins/src/ipv6.rs).
use pktflow.Prelude.{
  ℕ, zero, suc, ◌+◌, ◌*◌, ◌-◌, ◌≤◌, ◌≡◌, refl, subst, Bool, true, false, ◌==◌, if◌then◌else◌, List,
  length, arith,
}
use pktflow.Prelude.Result.{Result, ok, ◌>>=◌, >>=-eq-ok}
use pktflow.Core.Bytes
use pktflow.Core.Bytes.{ByteReader, u8, u16_be, u32_be, u64_be}
use pktflow.Core.Error.{ParseError}
use pktflow.Core.Plugin.{ParsedLayer}
use pktflow.Plugins.Tcp.{read}
use pktflow.Plugins.Ip.{
  ExtChain, ext_chain, fragment_header, options_header, is_extension, max_ext_headers,
}
use pktflow.Plugins.Headers.{
  At, At-pos_le, behind_word, behind_u16, behind_u32, behind_options, guard_passed, ok_header_len,
  guarded_ok,
}

pub behind_u8 :
    {G L : Type 0} (input : List ℕ) (n : ℕ) (r : ByteReader)
    (later : (ℕ × ByteReader) → Result ParseError L) (layer : L)
    → At input n r
    → (read (u8 r) >>= later) ≡ ok layer
    → ((k : ℕ) (r' : ByteReader) → At input (n + 1) r' → later (k, r') ≡ ok layer → G)
    → G
unfolding u8
behind_u8 input n r later layer a h go =
    behind_word input n 1 Bytes.Endian.from_be r later layer a h go

pub behind_u64 :
    {G L : Type 0} (input : List ℕ) (n : ℕ) (r : ByteReader)
    (later : (ℕ × ByteReader) → Result ParseError L) (layer : L)
    → At input n r
    → (read (u64_be r) >>= later) ≡ ok layer
    → ((k : ℕ) (r' : ByteReader) → At input (n + 8) r' → later (k, r') ≡ ok layer → G)
    → G
unfolding u64_be
behind_u64 input n r later layer a h go =
    behind_word input n 8 Bytes.Endian.from_be r later layer a h go

-- A parser whose last read ends at `n`, where the header that it reports ends too.
pub header_inside :
    (input : List ℕ) (n : ℕ) (r : ByteReader) (x layer : ParsedLayer)
    → At input n r
    → x.header_len ≡ n
    → Path (Result ParseError ParsedLayer) (ok x) (ok layer)
    → layer.header_len ≤ length input
header_inside input n r x layer a len h =
    omega (arith, At-pos_le input n r a, len, ok_header_len x layer h)

-- A reader behind the header that is counted so far.
abbrev pub Counted : List ℕ → ExtChain → Type 0
Counted input c = At input c.header_len c.reader

pub Counted-ok :
    (input : List ℕ) (x c : ExtChain) (m : ℕ)
    → At input m x.reader
    → m ≡ x.header_len
    → Path (Result ParseError ExtChain) (ok x) (ok c)
    → Counted input c
Counted-ok input x c m a len h =
    subst (Counted input) (guarded_ok true x c (ParseError.malformed "") h)
      (subst (λ n. At input n x.reader) len a)

pub fragment_header-Counted :
    (input : List ℕ) (c c' : ExtChain)
    → Counted input c
    → fragment_header c ≡ ok c'
    → Counted input c'
unfolding fragment_header
fragment_header-Counted input c c' a h =
    behind_u8 input c.header_len c.reader _ c' a h (λ inner r a h.
      behind_u8 input (c.header_len + 1) r _ c' a h (λ reserved r a h.
        behind_u16 input (c.header_len + 1 + 1) r _ c' a h (λ offset_flags r a h.
          behind_u32 input (c.header_len + 1 + 1 + 2) r _ c' a h (λ ident r a h.
            Counted-ok input _ c' (c.header_len + 1 + 1 + 2 + 4) a (omega arith) h))))

pub options_header-Counted :
    (input : List ℕ) (c c' : ExtChain)
    → Counted input c
    → options_header c ≡ ok c'
    → Counted input c'
unfolding options_header
options_header-Counted input c c' a h =
    behind_u8 input c.header_len c.reader _ c' a h (λ inner r a h.
      behind_u8 input (c.header_len + 1) r _ c' a h (λ ext_len r a h.
        behind_options input (c.header_len + 1 + 1) ((ext_len + 1) * 8 - 2) r _ c' a h
          (λ body r a h.
            Counted-ok input _ c' (c.header_len + 1 + 1 + ((ext_len + 1) * 8 - 2)) a (omega arith)
              h)))

pub one_branch :
    {G L : Type 0} (b : Bool) (m k : Result ParseError L) (l : L)
    → (m ≡ ok l → G)
    → (k ≡ ok l → G)
    → (if b then m else k) ≡ ok l
    → G
one_branch true m k l f g h = f h
one_branch false m k l f g h = g h

pub extension-Counted :
    (input : List ℕ) (b : Bool) (c c' : ExtChain)
    → Counted input c
    → (if b then fragment_header c else options_header c) ≡ ok c'
    → Counted input c'
extension-Counted input b c c' a h =
    one_branch b (fragment_header c) (options_header c) c' (fragment_header-Counted input c c' a)
      (options_header-Counted input c c' a) h

pub ext_chain-Counted :
    (left : ℕ) (input : List ℕ) (c c' : ExtChain)
    → Counted input c
    → ext_chain left c ≡ ok c'
    → Counted input c'
unfolding ext_chain
ext_chain-Counted zero input c c' a h =
    guard_passed (is_extension c.next_header)
      (ParseError.malformed "extension header chain too long") (ok c) c' h
      (λ over h. Counted-ok input c c' c.header_len a refl h)
ext_chain-Counted (suc left) input c c' a h =
    one_branch (is_extension c.next_header) _ (ok c) c'
      (λ h.
        let (d, first, later) =
          >>=-eq-ok (if c.next_header == 44 then fragment_header c else options_header c)
            (ext_chain left) h in
        ext_chain-Counted left input d c'
          (extension-Counted input (c.next_header == 44) c d a first) later)
      (λ h. Counted-ok input c c' c.header_len a refl h) h

pub behind_chain :
    {G : Type 0} (input : List ℕ) (c : ExtChain) (later : ExtChain → Result ParseError ParsedLayer)
    (layer : ParsedLayer)
    → Counted input c
    → (ext_chain max_ext_headers c >>= later) ≡ ok layer
    → ((c' : ExtChain) → Counted input c' → later c' ≡ ok layer → G)
    → G
behind_chain input c later layer a h go =
    let (c', chain, rest) = >>=-eq-ok (ext_chain max_ext_headers c) later h in
    go c' (ext_chain-Counted max_ext_headers input c c' a chain) rest
