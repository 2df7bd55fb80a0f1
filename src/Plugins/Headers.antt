-- ===== src/Plugins/Headers.antt =====
-- The length of the headers of TCP and UDP (crates/pktflow-plugins/src/tcp.rs and
-- udp.rs).
use pktflow.Prelude.{
  ℕ, ◌+◌, ◌*◌, ◌/◌, ltb, ◌-◌, ◌^◌, ◌≤◌, ◌<◌, ◌≡◌, refl, sym, ap, ◌∙◌, Bool, true, false, ◌==◌,
  if◌then◌else◌, List, length, arith,
}
use pktflow.Prelude.Result.{Result, ok, err, ◌>>=◌, >>=-eq-ok}
use pktflow.Core.Bytes
use pktflow.Core.Bytes.{ByteReader, u16_be, u32_be}
use pktflow.Core.Bytes.Reads.{IsValid, take-IsValid}
use pktflow.Core.Error.{ParseError}
use pktflow.Core.Plugin.{ParseCtx, ParsedLayer}
use pktflow.Plugins.Tcp.{read, tcp_parse}
use pktflow.Plugins.Udp.{udp_parse}

-- A reader that has taken `n` bytes of an input.
pub record At (input : List ℕ) (n : ℕ) (r : ByteReader) : Type 0 where
  pub valid : IsValid r
  pub buf : r.buf ≡ input
  pub pos : r.pos ≡ n

-- A read that goes well is a read of its bytes.
pub read_ok :
    {A : Type 0} (m : Bytes.Read A) (a : A) (r : ByteReader) → read m ≡ ok (a, r) → m ≡ ok (a, r)
read_ok (ok p) a r h = cc
read_ok (err t) a r h = cc

pub take-At :
    (input : List ℕ) (n k : ℕ) (r r' : ByteReader) (s : List ℕ)
    → At input n r
    → Bytes.take r k ≡ ok (s, r')
    → At input (n + k) r'
take-At input n k r r' s a h =
    let (valid, buf, pos, len) = take-IsValid r k s r' a.valid h in
    record { valid = valid; buf = buf ∙ a.buf; pos = omega (arith, pos, a.pos) }

-- The result of a guarded success.
pub guarded_ok :
    {E A : Type 0} (c : Bool) (x y : A) (e : E) → (if c then ok x else err e) ≡ ok y → x ≡ y
guarded_ok true x y e h = cc
guarded_ok false x y e h = cc

moved : (input : List ℕ) (n : ℕ) (q r : ByteReader) → q ≡ r → At input n q → At input n r
moved input n q r same a = rw (sym same) a

array-At :
    (input : List ℕ) (n k : ℕ) (r r' : ByteReader) (s : List ℕ)
    → At input n r
    → Bytes.array k r ≡ ok (s, r')
    → At input (n + k) r'
unfolding Bytes.array
array-At input n k r r' s a h =
    let ((t, q), first, rest) = >>=-eq-ok (Bytes.take r k) _ h in
    let same = guarded_ok (length t == k) (t, q) (s, r') _ rest in
    moved input (n + k) q r' (ap (λ p. p.1) same) (take-At input n k r q t a first)

-- A read of a word of `w` bytes.
pub word-At :
    (input : List ℕ) (n w k : ℕ) (decode : List ℕ → ℕ) (r r' : ByteReader)
    → At input n r
    → read (Bytes.array w r >>= (λ p. ok (decode p.0, p.1))) ≡ ok (k, r')
    → At input (n + w) r'
word-At input n w k decode r r' a h =
    let ((t, q), first, rest) =
      >>=-eq-ok (Bytes.array w r) _
        (read_ok (Bytes.array w r >>= (λ p. ok (decode p.0, p.1))) k r' h) in
    let same = guarded_ok true (decode t, q) (k, r') (record { needed = 0; have = 0 }) rest in
    moved input (n + w) q r' (ap (λ p. p.1) same) (array-At input n w r q t a first)

pub new-At : (input : List ℕ) → length input < 2 ^ 64 → At input 0 (Bytes.new input)
unfolding Bytes.new
new-At input sized = record {
  valid = record { inside = omega arith; sized = sized };
  buf = refl;
  pos = refl;
}

pub At-pos_le : (input : List ℕ) (n : ℕ) (r : ByteReader) → At input n r → n ≤ length input
At-pos_le input n r a =
    let same : length r.buf ≡ length input = ap length a.buf in
    omega (arith, a.pos, a.valid.inside, same)

-- A parser that succeeds has read a word of `w` bytes first and goes on behind it.
pub behind_word :
    {G L : Type 0} (input : List ℕ) (n w : ℕ) (decode : List ℕ → ℕ) (r : ByteReader)
    (later : (ℕ × ByteReader) → Result ParseError L) (layer : L)
    → At input n r
    → (read (Bytes.array w r >>= (λ p. ok (decode p.0, p.1))) >>= later) ≡ ok layer
    → ((k : ℕ) (r' : ByteReader) → At input (n + w) r' → later (k, r') ≡ ok layer → G)
    → G
behind_word input n w decode r later layer a h go =
    let ((k, r'), word, rest) =
      >>=-eq-ok (read (Bytes.array w r >>= (λ p. ok (decode p.0, p.1)))) later h in
    go k r' (word-At input n w k decode r r' a word) rest

pub behind_u16 :
    {G L : Type 0} (input : List ℕ) (n : ℕ) (r : ByteReader)
    (later : (ℕ × ByteReader) → Result ParseError L) (layer : L)
    → At input n r
    → (read (u16_be r) >>= later) ≡ ok layer
    → ((k : ℕ) (r' : ByteReader) → At input (n + 2) r' → later (k, r') ≡ ok layer → G)
    → G
unfolding u16_be
behind_u16 input n r later layer a h go =
    behind_word input n 2 Bytes.Endian.from_be r later layer a h go

pub behind_u32 :
    {G L : Type 0} (input : List ℕ) (n : ℕ) (r : ByteReader)
    (later : (ℕ × ByteReader) → Result ParseError L) (layer : L)
    → At input n r
    → (read (u32_be r) >>= later) ≡ ok layer
    → ((k : ℕ) (r' : ByteReader) → At input (n + 4) r' → later (k, r') ≡ ok layer → G)
    → G
unfolding u32_be
behind_u32 input n r later layer a h go =
    behind_word input n 4 Bytes.Endian.from_be r later layer a h go

pub ok_header_len :
    (x y : ParsedLayer)
    → Path (Result ParseError ParsedLayer) (ok x) (ok y)
    → x.header_len ≡ y.header_len
ok_header_len x y h = ap ParsedLayer.header_len (guarded_ok true x y (ParseError.malformed "") h)

-- If UDP accepts an input that is shorter than 2^64 bytes, then the header it reports has 8 bytes,
-- and the input has as many.
pub udp_parse-header_len :
    (input : List ℕ) (ctx : ParseCtx) (layer : ParsedLayer)
    → length input < 2 ^ 64
    → udp_parse input ctx ≡ ok layer
    → (layer.header_len ≡ 8) × (8 ≤ length input)
unfolding udp_parse
udp_parse-header_len input ctx layer sized h =
    behind_u16 input 0 (Bytes.new input) _ layer (new-At input sized) h (λ src_port r a h.
      behind_u16 input 2 r _ layer a h (λ dst_port r a h.
        behind_u16 input 4 r _ layer a h (λ len r a h.
          behind_u16 input 6 r _ layer a h
            (λ checksum r a h. (sym (ok_header_len _ layer h), At-pos_le input 8 r a)))))

-- The last reads of the TCP header are its options.
pub behind_options :
    {G L : Type 0} (input : List ℕ) (n k : ℕ) (r : ByteReader)
    (later : (List ℕ × ByteReader) → Result ParseError L) (layer : L)
    → At input n r
    → (read (Bytes.take r k) >>= later) ≡ ok layer
    → ((s : List ℕ) (r' : ByteReader) → At input (n + k) r' → later (s, r') ≡ ok layer → G)
    → G
behind_options input n k r later layer a h go =
    let ((s, r'), bytes, rest) = >>=-eq-ok (read (Bytes.take r k)) later h in
    go s r' (take-At input n k r r' s a (read_ok (Bytes.take r k) s r' bytes)) rest

-- A guard that let a success pass was false.
pub guard_passed :
    {G L : Type 0} (c : Bool) (e : ParseError) (m : Result ParseError L) (layer : L)
    → (if c then err e else m) ≡ ok layer
    → (c ≡ false → m ≡ ok layer → G)
    → G
guard_passed true e m layer h go = cc
guard_passed false e m layer h go = go refl h

accepted :
    (data_offset len header_len : ℕ)
    → ltb data_offset 5 ≡ false
    → 20 + (data_offset * 4 - 20) ≤ len
    → data_offset * 4 ≡ header_len
    → (20 ≤ header_len) × (header_len ≤ len)
accepted data_offset len header_len offset_ok inside same =
    let enough : 5 ≤ data_offset = ground (arith, offset_ok) in (omega arith, omega arith)

-- If TCP accepts an input that is shorter than 2^64 bytes, then the header it reports, options
-- included, has at least 20 bytes and lies within the input.
pub tcp_parse-header_len :
    (input : List ℕ) (ctx : ParseCtx) (layer : ParsedLayer)
    → length input < 2 ^ 64
    → tcp_parse input ctx ≡ ok layer
    → (20 ≤ layer.header_len) × (layer.header_len ≤ length input)
unfolding tcp_parse
tcp_parse-header_len input ctx layer sized h =
    behind_u16 input 0 (Bytes.new input) _ layer (new-At input sized) h (λ src_port r a h.
      behind_u16 input 2 r _ layer a h (λ dst_port r a h.
        behind_u32 input 4 r _ layer a h (λ seq r a h.
          behind_u32 input 8 r _ layer a h (λ ack r a h.
            behind_u16 input 12 r _ layer a h (λ offset_flags r a h.
              guard_passed (ltb (offset_flags / 4096) 5)
                (ParseError.malformed "data offset below 5") _ layer h
                (λ offset_ok h. behind_u16 input 14 r _ layer a h (λ window r a h.
                  behind_u16 input 16 r _ layer a h (λ checksum r a h.
                    behind_u16 input 18 r _ layer a h (λ urgent r a h.
                      behind_options input 20 _ r _ layer a h (λ options r a h.
                        accepted (offset_flags / 4096) (length input) layer.header_len offset_ok
                          (At-pos_le input (20 + (offset_flags / 4096 * 4 - 20)) r a)
                          (ok_header_len _ layer h)))))))))))
