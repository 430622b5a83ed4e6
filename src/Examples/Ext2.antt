-- ===== src/Examples/Ext2.antt =====
-- A driver whose state is whether it is open, with one file of three bytes.
use ub2lb.Prelude.{Bool, true, false, [], ◌∷◌}
use ub2lb.Prelude.Int.{pos}
use ub2lb.Ext2.{Driver, load_file}
use ub2lb.Ext2.Closed.{Ended, load_file-Ended}

abbrev driver : Driver Bool
driver = record {
  ext2fs_set_blk_dev_full = λ p s. (100, true);
  ext2fs_mount = λ n s. (true, true);
  ext2fs_open = λ f s. (pos 3, true);
  ext2fs_read = λ b n s. (pos n, (1 ∷ 2 ∷ 3 ∷ [], true));
  ext2fs_close = λ s. false;
}

load_file-Ended_example :
    Ended driver 100 (b'f' ∷ []) [] false (load_file driver 100 (b'f' ∷ []) [] false)
load_file-Ended_example = load_file-Ended driver 100 (b'f' ∷ []) [] false
