-- ===== src/Menu/Entry.antt =====
-- `menu_t` of src/menu.h and the functions of src/menu.c that make one. A `NULL` string is `none`;
-- `modules_cnt` is the length of `modules`. `argv`, `argc` and `server_ip` are never used.
use ub2lb.Prelude.{ℕ, Option, none, some, List, [], ◌∷◌, ◌++◌, Bytes, length, leb, if◌then◌else◌}

pub data DeviceType : Type 0 where
  default_type ide_type tftp_type cd_type : DeviceType

abbrev pub max_modules : ℕ
max_modules = 100

pub record EntryObject : Type 0 where
  pub name : Bytes
  pub args : Option Bytes
  pub partition : Option Bytes

pub record Entry : Type 0 where
  pub title : Option Bytes
  pub kernel : Option Bytes
  pub other : Option Bytes
  pub append : Option Bytes
  pub initrd : Option Bytes
  pub dtb : Option Bytes
  pub modules : List EntryObject
  pub device_type : DeviceType
  pub device_num : ℕ
  pub partition : ℕ

abbrev pub entry_alloc : Entry
entry_alloc = record {
  title = none;
  kernel = none;
  other = none;
  append = none;
  initrd = none;
  dtb = none;
  modules = [];
  device_type = default_type;
  device_num = 0;
  partition = 0;
}

-- The list that `menu_load` returns: its head, whose `default_os` and `delay` count, and the
-- entries behind it.
pub record Menu : Type 0 where
  pub head : Entry
  pub default_os : ℕ
  pub delay : ℕ
  pub entries : List Entry

-- `for (ptr = menu; ptr->next != NULL; ptr = ptr->next); ptr->next = entry;`
abbrev pub link : Menu → Entry → Menu
link menu entry = record menu { entries = menu.entries ++ entry ∷ [] }

abbrev pub new_object : Bytes → EntryObject
new_object name = record { name = name; args = none; partition = none }

-- `entry->modules[entry->modules_cnt++] = …`; `none` where that writes behind the array.
unfoldable pub add_module : Entry → Bytes → Option Entry
add_module entry name =
    if leb max_modules (length entry.modules)
    then none
    else some (record entry { modules = entry.modules ++ new_object name ∷ [] })
