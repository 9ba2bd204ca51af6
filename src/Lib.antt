-- ===== src/Lib.antt =====
-- go-rdx: a verification development of the RDX data format in Go.
--
-- An RDX document is a sequence of elements. An element is a type-length-value record whose
-- value starts with an identifier: `lit | length | idlen | id | value`. The program reads and
-- writes such records (tlv.go), packs numbers into few bytes (zipint.go), names elements by
-- identifiers printed in base 64 (id.go, ron.go), walks over documents with a cursor
-- (itheap.go) and compares elements in the orders that a merge needs (rdx.go).
--
-- The files:
-- - Prelude and its children: Boolean tests, lists, slices with Go's bounds, bytes and
--   little-endian words, bits, int64, results. Nothing of the program.
-- - Cmp: the result of a comparison, the constants Less to Grtr of rdx.go.
-- - ZipInt (zipint.go): ZipUint64Pair and its inverse, ZipUint64, zig-zag, floats as bit patterns.
-- - Ron60 (ron.go): the 60-bit serial numbers and their circular order.
-- - Ident (id.go): ID as the record RdxId of src and seq, its texts, its orders and revisions.
-- - Tlv (tlv.go): ReadTLV, WriteTLV, keyed records, and the open and close of nested records over
--   a stack of marks.
-- - Iter (itheap.go): the cursor Iter as a record; a method on a pointer returns the new cursor.
-- - Element (rdx.go): elements of a document, the typed readers, makers and appenders.
-- - Compare (rdx.go): the comparisons of two cursors.
-- - Compare.Making (rdx.go): MakePLEXOf with an order, as P, E and X call it; sort.Slice is a parameter.
-- - Merge (rdx.go): the merge of the values of elements that stand at the same place.
-- - Merge.Elements (itheap.go, rdx.go): Heapize, Iterize, MergeSameSpotElements, HeapMerge and Merge.
-- - Jdr (jdr.go): the escapes of strings, stamps and styles of the text form.
-- - Jdr.Actions (jdr.go): the actions of the parser on its bytes and its stack of marks, one function
--   per JDRon action. Jdr.Actions.Events is ParseJDR as a machine over them; the order of the calls,
--   which the lexer decides, is a list of events.
-- - Jdr.Printer (jdr.go): WriteJDR and WriteAllJDR. Jdr.Printer.Calls is the list of the lexer's calls
--   for a printed document, with the text of each token; the parser's machine runs on it.
--   Jdr.Printer.Tokens has the rules of the tokens (JDR.go.rl) as tests, and Jdr.Printer.Fits what
--   they and the text around a token have to satisfy.
-- - Jdr.Renderer (jdr.go, itheap.go): RenderJDR with its styles, and Iter.String.
-- - Normal (rdx.go): Normalize. Flatten (rdx.go): Flatten. Their theorems are about documents as trees
--   (Element.Docs), and the bytes of a tree are what WriteRDX writes for its elements.
-- - Heap (itheap.go): the binary heap of cursors that a merge reads from. The type of the cursors, what
--   a cursor does (the record Source) and the comparison are parameters.
-- - HeapTwo (itheap.go): Heap2 over any cursor, with its order and its merge as parameters.
-- - Seek (itheap.go): Iter.Seek. Object (itheap.go): ObjectReader.
-- - Sifting (heap.go): the loops of a heap over a parameter for sort.Interface.
-- - Navigate (rdx.go): Pick and Delve, an element by a key or by a path of keys.
-- - Builder (builder.go): a document built from a stack of open streams.
-- - Merkle (merkle7574.go): the peaks of a growing Merkle tree; SHA-256 is a parameter.
--
-- How the code is modelled:
-- - bytes and machine words are natural numbers with the wrap-around written out; the theorems name
--   the range (IsByte, IsU64, IsInt64) where they need it. A float64 is its IEEE 754 bit pattern.
-- - a slice expression that Go would refuse is the outcome `panic`; an error value is `err`; see
--   Prelude/Results. Make and append do not fail.
-- - loops are structural recursion, on the bytes read or on fuel which a lemma shows to be enough:
--   64-bit words have at most 8 bytes and at most 11 digits in base 64, and the length of a heap is
--   enough for its loops. The rounds of HeapMerge, the searches of Delve and Pick and the depth of
--   nesting are fuel too, as are the loops of Normalize, Flatten, Seek, ObjectReader and the
--   printers, since a malformed stream can keep a cursor where it is; the outcome is then
--   `out_of_fuel`. The theorems say how much is enough for the documents that they are about.
-- - the aliasing of slices is not modelled: every function of the source that appends returns the
--   slice, and the model takes that result.
--
-- Not modelled: the clock (Timestamp), printing through fmt and strconv, the lexer that Ragel
-- generates, WriteAll and the test runner, which use files, and DebugIter. strconv's functions are
-- parameters of the parser's actions and of the printer, fmt's of the renderer, and utf8.Valid of
-- Normalize.
pub mod Prelude
pub mod Cmp
pub mod ZipInt
pub mod Ron60
pub mod Ident
pub mod Tlv
pub mod Iter
pub mod Element
pub mod Compare
pub mod Builder
pub mod Merkle
pub mod Merge
pub mod Jdr
pub mod Sifting
pub mod Heap
pub mod Navigate
pub mod Normal
pub mod Flatten
pub mod Seek
pub mod Object
pub mod HeapTwo
