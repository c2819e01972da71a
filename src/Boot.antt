-- ===== src/Boot.antt =====
-- src/boot/main.c: the boot loader. The firmware's services are arguments: what each of the calls
-- answers. A failure of one that the code looks at stops the loader behind its message.
mod Best
mod Start
mod Tests
use barium.Prelude.{
  ℕ, zero, suc, ◌+◌, ◌*◌, ◌%◌, ◌^◌, Bool, ◌&&◌, Option, none, some, List, [], ◌∷◌, ◌==◌, ltb,
  if◌then◌else◌,
}

-- `efi_guid`; `data4` as a list of bytes.
pub record Guid : Type 0 where
  pub data1 : ℕ
  pub data2 : ℕ
  pub data3 : ℕ
  pub data4 : List ℕ

-- `efi_configuration_table`
pub record ConfigurationTable : Type 0 where
  pub vendor_guid : Guid
  pub vendor_table : ℕ

-- The fields of `efi_graphics_output_mode_information` that the loader reads.
pub record ModeInformation : Type 0 where
  pub horizontal_resolution : ℕ
  pub vertical_resolution : ℕ
  pub pixels_per_scan_line : ℕ

abbrev pub rsdp_guid : Guid
rsdp_guid = record {
  data1 = 0x8868e871;
  data2 = 0xe4f1;
  data3 = 0x11d3;
  data4 = 0xbc ∷ 0x22 ∷ 0x00 ∷ 0x80 ∷ 0xc7 ∷ 0x3c ∷ 0x88 ∷ 0x81 ∷ [];
}

-- The loop of `get_rsdp`. It does not compare `data4`.
pub get_rsdp : List ConfigurationTable → ℕ
get_rsdp [] = 0
get_rsdp (t ∷ ts) =
    let later = get_rsdp ts in
    let guid = t.vendor_guid in
    if guid.data1 == rsdp_guid.data1
      && (guid.data2 == rsdp_guid.data2 && guid.data3 == rsdp_guid.data3)
    then t.vendor_table
    else later

-- `uint32_t pixels`
abbrev pub pixels : ModeInformation → ℕ
pixels info = info.horizontal_resolution * info.vertical_resolution % 2 ^ 32

-- The loop over the modes, from the mode `i` on, over what `query_mode` answers for each: nothing if
-- it fails.
unfoldable pub choose_mode : List (Option ModeInformation) → (i best_mode max_pixels : ℕ) → ℕ
choose_mode [] i best_mode max_pixels = best_mode
choose_mode (none ∷ ms) i best_mode max_pixels = choose_mode ms (i + 1) best_mode max_pixels
choose_mode (some info ∷ ms) i best_mode max_pixels =
    let taken = choose_mode ms (i + 1) i (pixels info) in
    let passed = choose_mode ms (i + 1) best_mode max_pixels in
    if ltb max_pixels (pixels info) then taken else passed

-- `gop->mode` behind `set_mode`: the frame buffer, and the mode's information.
pub record Graphics : Type 0 where
  pub frame_buffer_base : ℕ
  pub frame_buffer_size : ℕ
  pub info : ModeInformation

-- What `get_memory_map` answers behind the enlarged buffer: the map's address, its size, the size of
-- a descriptor, and the key of the map.
pub record MemoryMap : Type 0 where
  pub map : ℕ
  pub map_size : ℕ
  pub desc_size : ℕ
  pub map_key : ℕ

-- The firmware. `locate_protocol` gives the modes as `query_mode` answers for them; `set_mode` gives
-- the graphics for a mode; `open` and `allocate_pages` succeed or fail; the file's size; the memory
-- map.
pub record Firmware : Type 0 where
  pub locate_gop : Option (List (Option ModeInformation))
  pub set_mode : ℕ → Graphics
  pub configuration_table : List ConfigurationTable
  pub open_kernel : Bool
  pub allocate_pages : Bool
  pub file_size : ℕ
  pub memory_map : MemoryMap

-- `barium_boot_info_t`
pub record BootInfo : Type 0 where
  pub framebuffer_base : ℕ
  pub framebuffer_size : ℕ
  pub width : ℕ
  pub height : ℕ
  pub pixels_per_scan_line : ℕ
  pub memory_map : ℕ
  pub memory_map_size : ℕ
  pub descriptor_size : ℕ
  pub rsdp : ℕ

-- How the loader ends: at the entry of the kernel, with the number of bytes read to it, the key given
-- to `exit_boot_services`, and the boot information; or behind one of its messages.
pub data Booted : Type 0 where
  kernel_entry : (address size map_key : ℕ) → BootInfo → Booted
  no_gop : Booted
  no_rsdp : Booted
  no_kernel : Booted
  no_memory : Booted

abbrev pub boot_info : Graphics → (rsdp : ℕ) → MemoryMap → BootInfo
boot_info g rsdp m = record {
  framebuffer_base = g.frame_buffer_base;
  framebuffer_size = g.frame_buffer_size % 2 ^ 32;
  width = g.info.horizontal_resolution;
  height = g.info.vertical_resolution;
  pixels_per_scan_line = g.info.pixels_per_scan_line;
  memory_map = m.map;
  memory_map_size = m.map_size;
  descriptor_size = m.desc_size;
  rsdp = rsdp;
}

pub efi_main : Firmware → Booted
efi_main f = elim f.locate_gop [
  | none ↦ no_gop
  | some modes ↦
      let g = f.set_mode (choose_mode modes 0 0 0) in
      let rsdp = get_rsdp f.configuration_table in
      if rsdp == 0
      then no_rsdp
      else if f.open_kernel
      then (if f.allocate_pages
          then kernel_entry 0x100000 f.file_size f.memory_map.map_key
              (boot_info g rsdp f.memory_map)
          else no_memory)
      else no_kernel
]
