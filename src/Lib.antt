-- ===== src/Lib.antt =====
-- wake is a build system: a compiler and runtime for a language of its own, with a store of build
-- results. This library models parts of its C++ sources that decide what a build names, stores,
-- reads and reports. Paths below are from the root of the repository.
--
--    src/wcl/doc_state.h, src/wcl/doc.h               Wcl/Doc
--    src/wcl/filepath.h                               Wcl/FilePath
--    src/wcl/trie.h                                   Wcl/Trie
--    src/wcl/diff.h                                   Wcl/Diff
--    src/cas/content_hash.h, content_hash.cpp         Cas/ContentHash
--    src/cas/cas.h, src/cas/cas.cpp                   Cas/Store
--    std::filesystem and streams, as cas.cpp uses them  Cas/FileSystem
--    src/json/json5.h, src/json/json5.cpp             Json/Ast, Json/Escape
--    src/json/jparser.cpp                             Json/Parser
--    src/json/utf8.cpp                                Json/Utf8
--    src/optimizer/ssa.h, src/optimizer/ssa.cpp       Optimizer
--    src/optimizer/usage.cpp                          Optimizer/Usage
--    src/optimizer/sweep.cpp                          Optimizer/Sweep
--    src/optimizer/scope.cpp                          Optimizer/Scope
--    src/parser/cst.h, src/parser/cst.cpp             Parser/Cst
--    src/types/dsu.h                                  Types/Dsu
--    src/util/shell.cpp                               Util/Shell
--
-- How the parts interact: the store names blobs by content hashes, whose text in hexadecimal gives
-- the directory and the file of a blob; the tools and the runtime make their paths canonical and
-- relative with the functions on file paths; the formatter of wake's sources builds its text as
-- documents that carry their measures; JSON carries the jobs' results and the logs; the quoting of
-- words writes the commands that are shown to a user. The parser builds the concrete syntax tree,
-- whose elements the translation to expressions walks; unification joins types in disjoint sets;
-- the optimizer's passes run on the terms that the translation ends in.
--
-- Definitions have the names of the code, in this library's spelling. A function that changes an
-- object takes the object and returns it: the iterators of a path, the builder of a document, the
-- lexer of the JSON parser, the disk under the store. A string is the list of its bytes. A size_t
-- of the document states is a number below 2 ^ 64 whose sums wrap around; other numbers do not come
-- near their bounds, except where a part below says so.
--
-- Wcl/Doc: State has the six measures with operator+, identity and inject; Rope has the documents
-- (`lit`, `concat`), from_string, and doc_builder with append, undo, merge and build. Text is an
-- independent description of the measures, on the lines of a text. `charwidth` stands for
-- utf8proc's widths of characters and `iterate` for utf8proc_iterate; documents are immutable, so
-- that their sharing is not modelled, and neither are output streams.
--
-- Wcl/FilePath: Iterator has filepath_iterator, split_path and join, Canonical has make_canonical
-- and join_paths, Relative has relative_to. The loops that only move over a string are recursion on
-- the string; those that move iterators run on fuel, the length of the path, since an iterator that
-- is not at the end moves on by a byte at least. Walk has the description of what a path means: a
-- walk through directories, where ".." at the root stays there. Symbolic links are left out, as in
-- the code. Directory iterators are input and output and left out.
--
-- Wcl/Trie: the nodes stand in a list as in the vector, children are indices. for_each, which only
-- reads, is left out.
--
-- Wcl/Diff: iterators are positions in two lists, an edge holds the edge before it, and a sum of
-- costs is a whole number, which a double holds exactly. `top` stands for std::priority_queue and
-- takes one of the edges that were pushed; IsQueue says so. That it takes a cheapest one is left
-- out, and so is that the script is a shortest one. The loop runs on fuel: every round takes an
-- edge, and an edge is pushed only at a pair of positions that was not visited before, so that 4 +
-- 2 (n + 1) (m + 1) rounds are enough for lists of n and m items. display_diff only writes.
--
-- Cas/ContentHash: a hash is its 32 bytes; `words` gives the four words in which equality and order
-- compare it. BLAKE3 is vendored, and a parameter of the store. Cas/Store: store_blob and its
-- steps, read_blob, has_blob, remove_blob, and the paths. The file system is a record of operations
-- on a disk (Cas/FileSystem) with laws that say what the documentation of std::filesystem and of
-- streams says; an operation may fail at any call. A read may break off, which read_blob does not
-- see. The laws are for paths that are apart; that two paths of a store are apart if their texts
-- differ is part of how it is set up, in one spelling and without links. A status that cannot be
-- read, for which fs::exists throws, is left out. Cas/Store/Files has the stores from files,
-- materialize_blob, Cas::open and alloc_staging_dir; the copying of a file, its status, its hash
-- and its times are parameters there, times as natural numbers. Not modelled: the listing of blobs
-- and the removal of staging directories.
--
-- Json: the parser runs over the symbols of the lexer, which re2c generates and is a parameter;
-- messages and locations are left out. Its fuel bounds the rounds and the depth together, and the
-- size of a document is enough. Documents hold their children in order; `print` is operator<<.
-- Files are left out.
--
-- Optimizer: a term holds its terms, and its arguments are positions that count the terms of the
-- enclosing functions from the outermost one. Usage passes over the terms from the last one back;
-- the counters of the terms in scope, which the code keeps in their `meta`, are a list that the
-- pass takes and returns. Sweep runs on a stream: the terms that are rewritten (`target`) and the
-- new position of each old one (`source`). Scoped says what the passes expect of a term. Of the
-- scope pass, Scope has the arguments that it makes, words of 64 bits, for a frame inside others;
-- the codes that a hash is made of are left out but for those of arguments. Counters do not come
-- near the bound of a machine word. A position behind the end of a scope, which the code reads out
-- of bounds, counts nothing, and the map has `invalid` there.
--
-- Parser/Cst: the nodes of a builder stand in a list whose head is the back of the vector, and a
-- segment is a pair of offsets in the file. Trees are the description: postorder gives what a
-- builder holds for a tree, preorder what the CST holds. A node's size is a field of 24 bits, so
-- that the statements are about trees of fewer nodes; other numbers do not come near their bounds.
-- Elements has the walk over siblings; `visit` is the loop that the translation to expressions runs
-- over them. The loops run on fuel: the number of nodes is enough for the CST, the number of
-- children for a walk. The map of token starts is a parameter of nextSiblingElement; addToken, id
-- and fragment are left out.
--
-- Types/Dsu: an Imp stands at an address of a store, a DSU object is the address that it holds, and
-- compress returns the new one. Its loop runs on fuel, a round for each step of the way to the
-- root; Chain counts those steps, so that an Imp on a chain has a root. Reference counts are left
-- out: what nobody owns stays in the store.
--
-- Util/Shell: `shell_escape`, with a reader of words after the POSIX shell as its description.
--
-- Not modelled: the lexer, grammar and type checker of the language, the other passes of the
-- optimizer, the interpreter with its heap, the job table and the database, FUSE and namespaces
-- (system calls), the Rust programs, and all vendored code.
pub mod Cas
pub mod Json
pub mod Optimizer
pub mod Parser
pub mod Prelude
pub mod Types
pub mod Util
pub mod Wcl
