-- ===== src/Kernel/Netlink.antt =====
-- kern/sniffer_netlink.c and kern/sniffer_netlink.h: the generic netlink message that carries a
-- frame to userspace. `struct hdr_info` and `struct radiotap_info` have the fields of the structs of
-- the same name in user/src/ctx.h and are the same records here.
--
-- The kernel's netlink functions are not part of the repository: what they return is the record
-- `SendReplies`, and the calls that own or release the message buffer are a list.
use wifi_sniffer.Prelude.{
  ℕ, ◌%◌, Bool, ◌&&◌, Option, none, some, List, [], ◌∷◌, if◌then◌else◌, take, ℤ,
}
use wifi_sniffer.Ctx.{RadiotapInfo, HdrInfo}
use wifi_sniffer.Handler.{Attrs}

pub record SendReplies : Type 0 where
  pub allocated : Bool
  pub header_put : Bool
  pub hdr_info_put : Bool
  pub rt_info_put : Bool
  pub body_put : Bool
  pub multicast : ℤ

-- `genlmsg_multicast` takes the buffer over, whatever it returns.
pub data SkbCall : Type 0 where
  new_skb put_header cancel_message free_skb end_message multicast_skb : SkbCall

-- The calls on the buffer, and the attributes of the message that was multicast.
pub record Sent : Type 0 where
  pub calls : List SkbCall
  pub message : Option Attrs

-- The three `nla_put`s, of which each one waits for the success of those before.
abbrev pub attributes_put : SendReplies → Bool
attributes_put r = r.hdr_info_put && r.rt_info_put && r.body_put

-- The parameter `body_len` is a `u8`, so the caller's length is reduced.
abbrev pub to_u8 : ℕ → ℕ
to_u8 n = n % 256

unfoldable pub send_to_userspace : SendReplies → HdrInfo → RadiotapInfo → ℕ → List ℕ → Sent
send_to_userspace r hdr_info rt_info body_len body =
    if r.allocated
    then (if r.header_put
        then (if attributes_put r
            then record {
              calls = new_skb ∷ put_header ∷ end_message ∷ multicast_skb ∷ [];
              message = some (record {
                header = some hdr_info;
                radiotap = some rt_info;
                payload = some (take (to_u8 body_len) body);
              });
            }
            else record {
              calls = new_skb ∷ put_header ∷ cancel_message ∷ free_skb ∷ [];
              message = none;
            })
        else record { calls = new_skb ∷ put_header ∷ free_skb ∷ []; message = none })
    else record { calls = new_skb ∷ []; message = none }
