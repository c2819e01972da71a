-- ===== src/Boot/Tests.antt =====
-- A firmware with three modes, of which it describes two.
use barium.Prelude.{
  ℕ, zero, suc, ◌*◌, ◌%◌, ◌^◌, ◌≤◌, ◌≡◌, ◌≢◌, refl, true, Option, none, some, List, [], ◌∷◌, ◌==◌,
  if◌then◌else◌, arith,
}
use barium.Boot.{
  ModeInformation, ConfigurationTable, rsdp_guid, get_rsdp, choose_mode, Firmware, BootInfo,
  kernel_entry, efi_main,
}
use barium.Boot.Best.{pixels_at, IsFirst}
use barium.Boot.Start.{SetsModes, efi_main-Starts}

abbrev small_mode : ModeInformation
small_mode = record {
  horizontal_resolution = 640;
  vertical_resolution = 480;
  pixels_per_scan_line = 640;
}

abbrev large_mode : ModeInformation
large_mode = record {
  horizontal_resolution = 1024;
  vertical_resolution = 768;
  pixels_per_scan_line = 1024;
}

abbrev modes : List (Option ModeInformation)
modes = some small_mode ∷ none ∷ some large_mode ∷ []

the_largest : choose_mode modes 0 0 0 ≡ 2
unfolding choose_mode
the_largest = refl

abbrev tables : List ConfigurationTable
tables =
    record {
      vendor_guid = record { data1 = 1; data2 = 2; data3 = 3; data4 = [] };
      vendor_table = 7;
    }
    ∷ record { vendor_guid = rsdp_guid; vendor_table = 0xE0000 }
    ∷ []

abbrev firmware : Firmware
firmware = record {
  locate_gop = some modes;
  set_mode = λ i. record {
    frame_buffer_base = 0x8000_0000;
    frame_buffer_size = 0x40_0000;
    info = if i == 0 then small_mode else large_mode;
  };
  configuration_table = tables;
  open_kernel = true;
  allocate_pages = true;
  file_size = 0x9000;
  memory_map = record { map = 0x5000; map_size = 480; desc_size = 48; map_key = 3 };
}

firmware-SetsModes : SetsModes firmware modes
firmware-SetsModes zero h = refl
firmware-SetsModes (suc zero) h = absurd (omega arith)
firmware-SetsModes (suc (suc zero)) h = refl
firmware-SetsModes (suc (suc (suc i))) h = absurd (omega arith)

found : get_rsdp tables ≢ 0
unfolding get_rsdp
found e = absurd (omega (arith, e))

efi_main-Starts_example :
    (b : BootInfo) × (efi_main firmware ≡ kernel_entry 0x100000 0x9000 3 b)
    × ((j : ℕ) → pixels_at modes j ≤ b.width * b.height % 2 ^ 32)
    × IsFirst tables b.rsdp
efi_main-Starts_example =
    efi_main-Starts firmware modes 0 refl firmware-SetsModes (omega arith) found refl refl
