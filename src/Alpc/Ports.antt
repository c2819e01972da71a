-- ===== src/Alpc/Ports.antt =====
-- Ports by name.
use barium.Prelude.{
  ℕ, ◌≤◌, ◌<◌, ◌≡◌, ◌≢◌, refl, sym, ◌∙◌, true, Option, none, some, List, ltb, replicate, length,
  length-replicate, arith, Bool-cases, inl, inr,
}
use barium.Text.{b_strcmp, b_strcpy, is_zero, c_string}
use barium.Text.Laws.{b_strcmp_iff, c_string-b_strcpy, length-c_string}
use barium.Alpc.{Message, PortList, alpc_create_port, alpc_connect_port}

created_name :
    (name : List ℕ) → length name < 32 → c_string (b_strcpy (replicate 32 0) name 0) ≡ c_string name
created_name name short =
    c_string-b_strcpy (replicate 32 0) name
      (omega (arith, length-c_string name, length-replicate {A = ℕ} 32 0))

-- What the creation of a port under a name promises.
abbrev Created : PortList → List ℕ → Option (ℕ × PortList) → Type 0
Created ports name none = 32 ≤ length name
Created ports name (some (handle, ports')) =
    (alpc_connect_port ports' name ≡ handle)
    × ((other : List ℕ)
        → c_string other ≢ c_string name
        → alpc_connect_port ports' other ≡ alpc_connect_port ports other)

-- A created port answers to its name from then on, also where an older port has that name, and the
-- other names stay with the ports that had them. A creation ends in none of the modelled states
-- only for a name of 32 characters or more.
alpc_create_port-Created :
    (tid address : ℕ) (slots : List Message) (ports : PortList) (name : List ℕ) (n : ℕ)
    → Created ports name (alpc_create_port tid address slots ports name n)
unfolding alpc_create_port alpc_connect_port
alpc_create_port-Created tid address slots ports name n = elim (Bool-cases (ltb (length name) 32)) [
  | inr long ↦ rw long (ground arith)
  | inl short ↦
      let stored = b_strcpy (replicate 32 0) name 0 in
      let kept = created_name name (ground arith) in
      let found : is_zero (b_strcmp stored name) ≡ true = (b_strcmp_iff stored name).1 kept in
      rw short (
        rw found refl,
        λ other ne. elim (Bool-cases (is_zero (b_strcmp stored other))) [
          | inl same ↦ absurd (ne (sym ((b_strcmp_iff stored other).0 same) ∙ kept))
          | inr differ ↦ rw differ refl
        ],
      )
]
