-- ===== src/Alpc/Tests.antt =====
-- A port of three slots, and sections over a small memory.
use barium.Prelude.{◌+◌, ◌*◌, ◌/◌, ◌≡◌, ◌≢◌, refl, some, List, [], ◌∷◌, replicate, arith}
use barium.Pmm.{Pmm, pmm_alloc, u64}
use barium.Alpc.{Port, PortList, blank_message, alpc_send, port_at}
use barium.Alpc.Send.{Delivered, alpc_send-Delivered}
use barium.Sched.System.{System, blank_cpu}
use barium.Alpc.Refine.{PortEvent, send, receive, IsPort, pending, run_port, fifo, run_port-fifo}
use barium.Alpc.Sections.Limit.{
  SectionCall, creates, maps, run_sections, answers, run_sections-answers,
}
use barium.Alpc.Sections.{
  alpc_init, Sections, free_section, alpc_create_section, find_section, fill_slot,
}
use barium.Alpc.Sections.Shared.{IsSections, Mapped, alpc_map_section-alpc_create_section}

abbrev three_slots : Port
three_slots = record {
  name = [];
  owner_tid = 1;
  server_tid = 1;
  msg_queue = replicate 3 blank_message;
  queue_head = 2;
  queue_tail = 2;
  queue_size = 3;
}

three_slots-IsPort : IsPort three_slots
three_slots-IsPort = record {
  some_slot = omega arith;
  slots = omega arith;
  head_in = omega arith;
  tail_in = omega arith;
}

abbrev calls : List PortEvent
calls = send blank_message ∷ send blank_message ∷ send blank_message ∷ receive ∷ []

run_port-fifo_example : run_port three_slots calls ≡ some (fifo 3 (pending three_slots) calls)
run_port-fifo_example = run_port-fifo calls three_slots three_slots-IsPort

abbrev memory : Pmm
memory = record {
  bitmap = λ i. 0;
  total_pages = 16;
  usable_pages = 16;
  free_pages = 16;
  last_search_index = 4;
  highest_phys_address = 16 * 4096;
}

abbrev table : Sections
table = record {
  sections = replicate 2 free_section;
  next_section_id = 1;
  next_section_virt = 0x80_0000_0000;
}

table-IsSections : IsSections table
table-IsSections = record {
  handed_out = (omega arith, (omega arith, tt));
  blank = (λ e. refl, (λ e. refl, tt));
  ids_left = omega arith;
  space_left = omega arith;
}

table_made : (alpc_create_section 5 memory table 5000).0 ≢ 0
unfolding alpc_create_section fill_slot
table_made = omega arith

alpc_map_section-alpc_create_section_example :
    let pages = u64 (5000 + 4095) / 4096 in
    Mapped table pages (pmm_alloc memory pages).0 (alpc_create_section 5 memory table 5000)
alpc_map_section-alpc_create_section_example =
    alpc_map_section-alpc_create_section 5 memory table 5000 table-IsSections table_made

table_free : find_section table.sections 0 ≡ some free_section
unfolding find_section
table_free = refl

abbrev ports : PortList
ports = (0x2000, three_slots) ∷ []

abbrev idle : System
idle = record { cpus = blank_cpu ∷ []; next_tid = 2; next_cpu_index = 0 }

three_slots_there : port_at ports 0x2000 ≡ some three_slots
unfolding port_at
three_slots_there = refl

alpc_send-Delivered_example :
    Delivered 0 ports idle 0x2000 three_slots blank_message
      (alpc_send 0 ports idle 0x2000 blank_message)
alpc_send-Delivered_example =
    alpc_send-Delivered 0 ports idle 0x2000 three_slots blank_message
      (λ e. absurd (omega (arith, e))) three_slots_there three_slots-IsPort

abbrev section_calls : List SectionCall
section_calls = creates 5 ∷ creates 6 ∷ maps 2 ∷ maps 0 ∷ maps 3 ∷ []

run_sections-answers_example :
    run_sections memory alpc_init section_calls ≡ answers 0 0x80_0000_0000 section_calls
run_sections-answers_example = run_sections-answers section_calls memory (omega arith)
