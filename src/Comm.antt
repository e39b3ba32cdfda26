-- ===== src/Comm.antt =====
-- _include/flyd_comm.h: the limits of a packet, the states of its reception, and its header.
pub mod Header
use flydragon.Base.{ℕ}

-- `_PKG_MAX_LENGTH`
abbrev pub pkg_max_length : ℕ
pkg_max_length = 30000

-- `_DATA_BUFSIZE_`, the size of `dataHeadInfo`
abbrev pub data_bufsize : ℕ
data_bufsize = 20

-- `m_iLenPkgHeader`, the size of COMM_PKG_HEADER: 2 + 2 + 4 bytes, packed
abbrev pub len_pkg_header : ℕ
len_pkg_header = 8

-- `_PKG_HD_INIT`, `_PKG_HD_RECVING`, `_PKG_BD_INIT`, `_PKG_BD_RECVING`
pub data RecvStat : Type 0 where
  hd_init hd_recving bd_init bd_recving : RecvStat
