-- ===== src/Kernel/Module/Lifecycle.antt =====
-- Loading and unloading the kernel module (kern/sniffer_main.c) gives back what it takes.
use wifi_sniffer.Prelude.{
  ◌≡◌, Bool, true, false, not, ◌&&◌, List, [], ◌∷◌, ◌++◌, if◌then◌else◌, count, arith,
}
use wifi_sniffer.Channel.{is_zero}
use wifi_sniffer.Kernel.Module.{
  InitReplies, KernelCall, put_device, lock_rtnl, unlock_rtnl, register_handler, unregister_handler,
  register_family, unregister_family, sniffer_init, sniffer_clean,
}

abbrev pub is_put : KernelCall → Bool
is_put put_device = true
is_put _ = false

abbrev pub is_register : KernelCall → Bool
is_register register_handler = true
is_register _ = false

abbrev pub is_unregister : KernelCall → Bool
is_unregister unregister_handler = true
is_unregister _ = false

abbrev pub is_unregister_family : KernelCall → Bool
is_unregister_family unregister_family = true
is_unregister_family _ = false

abbrev pub is_register_family : KernelCall → Bool
is_register_family register_family = true
is_register_family _ = false

-- What the kernel does with a module: `sniffer_clean` runs at unloading, which needs that
-- `sniffer_init` returned 0.
pub lifecycle : InitReplies → List KernelCall
lifecycle r =
    let l = sniffer_init r in if is_zero l.ret then l.calls ++ sniffer_clean l.real_dev else l.calls

-- The handler is registered and unregistered only while the lock is held, the lock is not taken twice
-- or given back twice, and it is free at the end.
abbrev pub locks_well : Bool → List KernelCall → Bool
locks_well held [] = not held
locks_well held (lock_rtnl ∷ cs) = not held && locks_well true cs
locks_well held (unlock_rtnl ∷ cs) = held && locks_well false cs
locks_well held (register_handler ∷ cs) = held && locks_well held cs
locks_well held (unregister_handler ∷ cs) = held && locks_well held cs
locks_well held (_ ∷ cs) = locks_well held cs

-- Whether the module loads.
abbrev pub loads : InitReplies → Bool
loads r = r.device_found && is_zero r.registered

-- Over the life of the module: the device is put once if it was found; the handler is tried to be
-- registered once if it was, and unregistered once if that succeeded; the netlink family is registered
-- once and unregistered once if loading succeeds, and neither if it fails; the handler is only touched
-- while the lock is held, and every lock is released before the next one is taken.
pub lifecycle-balanced :
    (r : InitReplies)
    → (count is_put (lifecycle r) ≡ (if r.device_found then 1 else 0))
      × (count is_register (lifecycle r) ≡ (if r.device_found then 1 else 0))
      × (count is_unregister (lifecycle r) ≡ (if loads r then 1 else 0))
      × (count is_register_family (lifecycle r) ≡ (if loads r then 1 else 0))
      × (count is_unregister_family (lifecycle r) ≡ (if loads r then 1 else 0))
      × (locks_well false (lifecycle r) ≡ true)
unfolding lifecycle sniffer_init sniffer_clean
lifecycle-balanced r = ground arith
