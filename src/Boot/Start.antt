-- ===== src/Boot/Start.antt =====
-- What the loader hands to the kernel.
use barium.Prelude.{
  ℕ, ◌*◌, ◌%◌, ◌^◌, ◌≤◌, ◌<◌, ◌≡◌, ◌≢◌, refl, true, false, Option, some, List, ◌==◌, arith,
}
use barium.Boot.{
  ModeInformation, pixels, choose_mode, get_rsdp, Firmware, BootInfo, kernel_entry, boot_info,
  efi_main,
}
use barium.Boot.Best.{pixels_at, choose_mode-IsBest, IsFirst, get_rsdp-IsFirst}

-- The firmware sets a mode that it described: the graphics then have the pixels of the description.
abbrev pub SetsModes : Firmware → List (Option ModeInformation) → Type 0
SetsModes f modes = (i : ℕ) → 0 < pixels_at modes i → pixels (f.set_mode i).info ≡ pixels_at modes i

-- When the firmware has graphics with a mode it describes, lists a root pointer, has the kernel's file
-- and the memory for it, and sets the modes as it describes them: the loader enters the kernel at
-- 1 MiB with a frame buffer that has the most pixels of all the modes, counted modulo 2^32, and with
-- the first root pointer whose identifier matches in the fields compared.
pub efi_main-Starts :
    (f : Firmware) (modes : List (Option ModeInformation)) (some_mode : ℕ)
    → f.locate_gop ≡ some modes
    → SetsModes f modes
    → 0 < pixels_at modes some_mode
    → get_rsdp f.configuration_table ≢ 0
    → f.open_kernel ≡ true
    → f.allocate_pages ≡ true
    → (b : BootInfo) × (efi_main f ≡ kernel_entry 0x100000 f.file_size f.memory_map.map_key b)
      × ((j : ℕ) → pixels_at modes j ≤ b.width * b.height % 2 ^ 32)
      × IsFirst f.configuration_table b.rsdp
unfolding efi_main
efi_main-Starts f modes some_mode located sets shown found opened given =
    let best = choose_mode-IsBest modes in
    let r = choose_mode modes 0 0 0 in
    let visible : 0 < pixels_at modes r = omega (arith, (best some_mode).0, shown) in
    let set = sets r visible in
    let go : (get_rsdp f.configuration_table == 0) ≡ false = ground (arith, found) in
    (
      boot_info (f.set_mode r) (get_rsdp f.configuration_table) f.memory_map,
      rw (located, go, opened, given) refl,
      λ j. omega (arith, (best j).0, set),
      get_rsdp-IsFirst f.configuration_table found,
    )
