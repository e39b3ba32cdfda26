-- ===== src/Comm/Header.antt =====
-- COMM_PKG_HEADER of _include/flyd_comm.h as eight bytes in network order, and the accesses to it
-- through `htons`, `htonl`, `ntohs` and `ntohl`.
use flydragon.Base.{ℕ, ◌+◌, ◌*◌, ◌/◌, ◌%◌, ◌<◌, ◌≡◌, List, [], ◌∷◌, ◌++◌, arith, get_or}

-- COMM_PKG_HEADER, its fields in host order
pub record PkgHeader : Type 0 where
  pub pkg_len : ℕ
  pub msg_code : ℕ
  pub crc32 : ℕ

-- The 16-bit and the 32-bit number in network order at an offset.
abbrev pub get16 : List ℕ → ℕ → ℕ
get16 bs i = get_or bs i 0 * 256 + get_or bs (i + 1) 0

abbrev pub get32 : List ℕ → ℕ → ℕ
get32 bs i = get16 bs i * 65536 + get16 bs (i + 2)

-- The bytes that `htons` and `htonl` leave in memory.
abbrev pub put16 : ℕ → List ℕ
put16 n = (n / 256 % 256) ∷ (n % 256) ∷ []

abbrev pub put32 : ℕ → List ℕ
put32 n = put16 (n / 65536) ++ put16 n

-- What `ntohs(p->pkgLen)`, `ntohs(p->msgCode)` and `ntohl(p->crc32)` read.
unfoldable pub read_header : List ℕ → PkgHeader
read_header bs = record { pkg_len = get16 bs 0; msg_code = get16 bs 2; crc32 = get32 bs 4 }

unfoldable pub write_header : PkgHeader → List ℕ
write_header h = put16 h.pkg_len ++ put16 h.msg_code ++ put32 h.crc32

-- A header whose fields fit their types is read back as it was written, whatever follows it.
pub read_header-write_header :
    (h : PkgHeader) (rest : List ℕ)
    → h.pkg_len < 65536
    → h.msg_code < 65536
    → h.crc32 < 4294967296
    → read_header (write_header h ++ rest) ≡ h
unfolding read_header write_header
read_header-write_header h rest p q r = ground arith
