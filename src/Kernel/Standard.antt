-- ===== src/Kernel/Standard.antt =====
-- What IEEE 802.11 and the kernel's header linux/ieee80211.h say of a frame's header, as far as
-- kern/sniffer_main.c relies on it.
use wifi_sniffer.Prelude.{◌≡◌}
use wifi_sniffer.Kernel.{Ieee80211}

-- The offsets of `struct ieee80211_radiotap_header` and `struct ieee80211_hdr`, and the masks of the
-- frame control field.
pub record IsStandard (k : Ieee80211) : Type 0 where
  pub it_len : k.it_len ≡ 2
  pub frame_control : k.frame_control ≡ 0
  pub addr1 : k.addr1 ≡ 4
  pub addr2 : k.addr2 ≡ 10
  pub addr3 : k.addr3 ≡ 16
  pub addr4 : k.addr4 ≡ 24
  pub ftype : k.ftype ≡ 0x000c
  pub stype : k.stype ≡ 0x00f0
  pub retry : k.retry ≡ 0x0800
  pub tods : k.tods ≡ 0x0100
  pub fromds : k.fromds ≡ 0x0200
