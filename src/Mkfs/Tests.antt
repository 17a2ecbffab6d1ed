-- ===== src/Mkfs/Tests.antt =====
-- An image with one file of two pieces, and what the kernel finds in it.
use sofinal_project.Prelude.{ℕ, ◌+◌, ◌≡◌, refl, arith, Option, none, some, List, [], ◌∷◌}
use sofinal_project.Fs
use sofinal_project.Fs.{Fs, bpb}
use sofinal_project.Fs.Bitmap.{taken}
use sofinal_project.Mkfs.{
  Image, nmeta, empty_image, make_image, make_root, add_file, add_files, append_all, iappend,
  iappend_loop, find_block, winode, rinode, put_dinode, fix_root, ialloc, mark_bits, balloc,
}
use sofinal_project.Mkfs.Bitmap.{balloc-balloc}
use sofinal_project.CString.{strncpy}
use sofinal_project.Fs.Data.{put_bytes}
use sofinal_project.Fs.Inodes.{put_addrs, get_addrs}

abbrev files : List (List ℕ × List (List ℕ))
files = (95 ∷ 97 ∷ [], (104 ∷ 105 ∷ []) ∷ (33 ∷ []) ∷ []) ∷ []

abbrev image_of : Option Image → Image
image_of none = empty_image
image_of (some img) = img

abbrev built : Image
built = image_of (make_image files)

used_blocks : built.freeblock ≡ nmeta + 2
unfolding make_image make_root add_files add_file append_all iappend iappend_loop find_block winode
    rinode put_dinode fix_root ialloc mark_bits balloc put_bytes strncpy put_addrs get_addrs
used_blocks = refl

built_file : (rinode 2 built).size ≡ 3
unfolding make_image make_root add_files add_file append_all iappend iappend_loop find_block winode
    rinode put_dinode fix_root ialloc mark_bits balloc put_bytes strncpy put_addrs get_addrs
built_file = refl

built_root : (rinode 1 built).size ≡ 512
unfolding make_image make_root add_files add_file append_all iappend iappend_loop find_block winode
    rinode put_dinode fix_root ialloc mark_bits balloc put_bytes strncpy put_addrs get_addrs
built_root = refl

abbrev mapped : Image
mapped = image_of (balloc 61 empty_image)

map_written : balloc 61 empty_image ≡ some mapped
unfolding balloc
map_written = refl

balloc-balloc_example : Fs.balloc mapped.fs ≡ some (61, taken 61 mapped.fs)
balloc-balloc_example = balloc-balloc 61 empty_image mapped map_written (omega arith) (omega arith)
