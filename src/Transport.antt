-- ===== src/Transport.antt =====
-- zcm/zcm.h and zcm/transport.h: what every transport shares.
use zcm.Prelude.{ℕ, Bool, ◌⊎◌, List}

-- `ZCM_RETURN_CODES`.
pub data Retcode : Type 0 where
  eok einvalid eagain econnect eintr eunknown ememory eunimpl : Retcode

-- `ZCM_CHANNEL_MAXLEN`
abbrev pub channel_maxlen : ℕ
channel_maxlen = 32

-- `zcm_msg_t`: `buf` holds the `len` bytes, and `channel` those before the closing NUL.
pub record Msg : Type 0 where
  pub utime : ℕ
  pub channel : List ℕ
  pub buf : List ℕ

-- `zcm_type`
pub data ZcmType : Type 0 where
  blocking nonblocking : ZcmType

-- `zcm_trans_methods_t` on the transport's state: a received message comes with `ZCM_EOK`.
pub record Methods (T : Type 0) : Type 0 where
  pub sendmsg : T → Msg → Retcode × T
  pub recvmsg_enable : T → List ℕ → Bool → Retcode × T
  pub recvmsg : T → ℕ → (Retcode ⊎ Msg) × T
  pub update : T → Retcode × T
