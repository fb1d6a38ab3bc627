-- ===== src/Kernel/Module.antt =====
-- Loading and unloading the kernel module: `sniffer_init` and `sniffer_clean` of kern/sniffer_main.c,
-- `init_genl_family` and `free_genl_family` of kern/sniffer_netlink.c.
pub mod Lifecycle
use wifi_sniffer.Prelude.{Bool, true, false, List, [], ◌∷◌, ◌++◌, if◌then◌else◌, ℤ, pos, minus_one}
use wifi_sniffer.Channel.{is_zero}

-- What the kernel's functions return: whether `mon0` is there, and the result of registering the
-- receive handler.
pub record InitReplies : Type 0 where
  pub device_found : Bool
  pub registered : ℤ

pub data KernelCall : Type 0 where
  get_device put_device lock_rtnl unlock_rtnl : KernelCall
  register_handler unregister_handler register_family unregister_family : KernelCall

-- The return value, whether `real_dev` is set, and the calls.
pub record Loaded : Type 0 where
  pub ret : ℤ
  pub real_dev : Bool
  pub calls : List KernelCall

abbrev init_genl_family : List KernelCall
init_genl_family = register_family ∷ []

abbrev free_genl_family : List KernelCall
free_genl_family = unregister_family ∷ []

unfoldable pub sniffer_init : InitReplies → Loaded
sniffer_init r =
    if r.device_found
    then (if is_zero r.registered
        then record {
          ret = pos 0;
          real_dev = true;
          calls = get_device ∷ lock_rtnl ∷ register_handler ∷ unlock_rtnl ∷ init_genl_family;
        }
        else record {
          ret = r.registered;
          real_dev = true;
          calls = get_device ∷ lock_rtnl ∷ register_handler ∷ unlock_rtnl ∷ put_device ∷ [];
        })
    else record { ret = minus_one; real_dev = false; calls = get_device ∷ [] }

unfoldable pub sniffer_clean : Bool → List KernelCall
sniffer_clean real_dev =
    (if real_dev then lock_rtnl ∷ unregister_handler ∷ unlock_rtnl ∷ put_device ∷ [] else [])
    ++ free_genl_family
