-- ===== src/Symbolizer/Elf.antt =====
-- ElfFile (symbolizer/Elf.h and .cc): the tables of a mapped 64-bit file, by their offsets in it. The
-- constants are those of <elf.h>.
use claire_common.Common.{
  ℕ, zero, suc, ◌+◌, ◌-◌, ◌*◌, ◌/◌, ◌%◌, ◌^◌, Bool, true, false, not, ◌&&◌, ◌||◌, Option, none,
  some, List, [], ◌∷◌, ltb, leb, ◌==◌, if◌then◌else◌, length, take, drop,
}
use claire_common.Common.Outcome.{Outcome, done, undefined, out_of_fuel, ◌>>=◌, ◌>>◌, check}
use claire_common.Symbolizer.Reader.{Piece, little_endian}
use claire_common.Strings.Piece.{equal}
pub mod Search
pub mod Names
pub mod Symbols
pub mod Ends
pub mod Covering
pub mod Definitions

-- A field of so many bytes; what lies past the file is not mapped.
unfoldable pub field : List ℕ → ℕ → ℕ → Outcome ℕ
field file offset width =
    if leb (offset + width) (length file)
    then done (little_endian (take width (drop offset file)))
    else undefined

-- The fields of ElfW(Shdr), ElfW(Sym) and ElfW(Ehdr) that are read.
pub record SectionHeader : Type 0 where
  pub sh_name : ℕ
  pub sh_type : ℕ
  pub sh_addr : ℕ
  pub sh_offset : ℕ
  pub sh_size : ℕ
  pub sh_link : ℕ
  pub sh_entsize : ℕ

pub record ElfSymbol : Type 0 where
  pub st_name : ℕ
  pub st_info : ℕ
  pub st_shndx : ℕ
  pub st_value : ℕ
  pub st_size : ℕ

pub record ElfHeader : Type 0 where
  pub e_phoff : ℕ
  pub e_shoff : ℕ
  pub e_phnum : ℕ
  pub e_shnum : ℕ
  pub e_shstrndx : ℕ

-- `At<T>`, which reads the struct whole; its DCHECK is dropped.
unfoldable pub section_at : List ℕ → ℕ → Outcome SectionHeader
section_at file offset = do
  sh_name ← field file offset 4
  sh_type ← field file (offset + 4) 4
  sh_addr ← field file (offset + 16) 8
  sh_offset ← field file (offset + 24) 8
  sh_size ← field file (offset + 32) 8
  sh_link ← field file (offset + 40) 4
  sh_entsize ← field file (offset + 56) 8
  done (record {
    sh_name = sh_name;
    sh_type = sh_type;
    sh_addr = sh_addr;
    sh_offset = sh_offset;
    sh_size = sh_size;
    sh_link = sh_link;
    sh_entsize = sh_entsize;
  })

unfoldable pub symbol_at : List ℕ → ℕ → Outcome ElfSymbol
symbol_at file offset = do
  st_name ← field file offset 4
  st_info ← field file (offset + 4) 1
  st_shndx ← field file (offset + 6) 2
  st_value ← field file (offset + 8) 8
  st_size ← field file (offset + 16) 8
  done (record {
    st_name = st_name;
    st_info = st_info;
    st_shndx = st_shndx;
    st_value = st_value;
    st_size = st_size;
  })

-- GetElfHeader.
unfoldable pub get_elf_header : List ℕ → Outcome ElfHeader
get_elf_header file = do
  e_phoff ← field file 32 8
  e_shoff ← field file 40 8
  e_phnum ← field file 56 2
  e_shnum ← field file 60 2
  e_shstrndx ← field file 62 2
  done (record {
    e_phoff = e_phoff;
    e_shoff = e_shoff;
    e_phnum = e_phnum;
    e_shnum = e_shnum;
    e_shstrndx = e_shstrndx;
  })

-- The loop of Init over the program headers, to the first PT_LOAD; without one the base address
-- stays 0.
unfoldable pub find_base : List ℕ → ℕ → ℕ → Outcome ℕ
find_base file zero offset = done 0
find_base file (suc others) offset = do
  p_type ← field file offset 4
  let again = find_base file others (offset + 56)
  if p_type == 1 then field file (offset + 16) 8 else again

-- Init: the magic numbers, the class of 64 bits and the little-endian encoding, and the base address.
unfoldable pub init_elf : List ℕ → Outcome ℕ
unfolding find_base
init_elf file = do
  magic ← field file 0 4
  check (magic == 0x464c_457f)
  class ← field file 4 1
  check (class == 2)
  encoding ← field file 5 1
  check (encoding == 1)
  header ← get_elf_header file
  find_base file header.e_phnum header.e_phoff

-- The loops over section headers: the offset of the first that passes a test.
unfoldable pub find_section : List ℕ → (SectionHeader → Bool) → ℕ → ℕ → Outcome (Option ℕ)
find_section file test zero offset = done none
find_section file test (suc others) offset = do
  section ← section_at file offset
  let again = find_section file test others (offset + 64)
  if test section then done (some offset) else again

unfoldable pub get_section_by_index : List ℕ → ℕ → Outcome SectionHeader
get_section_by_index file index = do
  header ← get_elf_header file
  section_at file (header.e_shoff + index * 64)

unfoldable pub get_section_body : List ℕ → SectionHeader → Outcome Piece
get_section_body file section =
    if leb section.sh_offset (length file)
    then done (record { ahead = drop section.sh_offset file; size = section.sh_size })
    else undefined

abbrev pub contains : ℕ → SectionHeader → Bool
contains address section =
    leb section.sh_addr address && ltb address ((section.sh_addr + section.sh_size) % 2 ^ 64)

unfoldable pub get_section_containing_address : List ℕ → ℕ → Outcome (Option ℕ)
unfolding find_section
get_section_containing_address file address = do
  header ← get_elf_header file
  find_section file (contains address) header.e_shnum header.e_shoff

-- The text up to a null.
unfoldable pub c_string : List ℕ → Outcome (List ℕ)
c_string [] = undefined
c_string (zero ∷ s) = done []
c_string (suc b ∷ s) = do text ← c_string s; done (suc b ∷ text)

-- The loop of GetSectionByName over the names; `cur != end` is the only test for the end.
unfoldable pub find_name : ℕ → List ℕ → List ℕ → ℕ → ℕ → Outcome (Option ℕ)
unfolding c_string
find_name zero file name cur end = out_of_fuel
find_name (suc fuel) file name cur end =
    let next = (do
      text ← c_string (drop cur file)
      let again = find_name fuel file name (cur + length text + 1) end
      if equal text name then done (some cur) else again) in
    if cur == end then done none else next

abbrev pub named : ℕ → SectionHeader → Bool
named offset section = section.sh_name == offset

unfoldable pub find_named : List ℕ → ElfHeader → ℕ → Option ℕ → Outcome (Option ℕ)
unfolding find_section
find_named file header names none = done none
find_named file header names (some cur) =
    find_section file (named (cur - names)) header.e_shnum header.e_shoff

-- GetSectionByName behind its first test.
unfoldable pub section_named : List ℕ → List ℕ → ElfHeader → Outcome (Option ℕ)
unfolding find_named find_name
section_named file name header = do
  names ← get_section_by_index file header.e_shstrndx
  found ← find_name (suc (length file)) file name names.sh_offset (names.sh_offset + names.sh_size)
  find_named file header names.sh_offset found

unfoldable pub get_section_by_name : List ℕ → List ℕ → Outcome (Option ℕ)
unfolding section_named
get_section_by_name file name = do
  header ← get_elf_header file
  if header.e_shstrndx == 0 then done none else section_named file name header
