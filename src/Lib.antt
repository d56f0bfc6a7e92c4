-- ===== src/Lib.antt =====
-- The native core of FCA4J (fca4j-core-natif/src/main/native), modelled and verified.
--
-- FCA4J computes concept lattices, AOC-posets and implication bases of formal contexts. Its
-- native library holds a context as two arrays of bitmaps, derives closures from it, and builds
-- orders of concepts that it hands to Java as one array of integers.
--
-- Parts, and the files that model them:
--   core/context.c       Context: the context as a record of rows and columns; ctx_create, ctx_set,
--                        the names and ctx_from_matrix are functions of the same names.
--   core/closure.c       Closure: compute_extent, compute_intent and closure, both loops of each.
--   core/implication.c   Implication: the two constructors.
--   core/strbuf.c        StrBuf: the text written so far and the capacity.
--   core/conceptorder.c  DGraph for the graph, ConceptOrder for the order, its edges, the reduced
--                        extents (co_compute_rextents), the intents (Intents), the flat array
--                        (Flat: co_to_flat_array) and the JSON text (Json).
--   algo/addextent.c     AddExtent: add_extent and build_lattice over ConceptOrder and Context; Run for
--                        the entry points. Descent treats the descent, SwapRemove, Dominance and
--                        Candidates the list of new children, Rewire and Insert the new concept,
--                        Children the loop over the children.
--   core/bitset_roaring.h  BitsetRoaring: the conversions between Bitset and bitmaps.
--   core/clarification.c Clarification: the classes of equal columns and the clarified context; the
--                        loops are treated in Partition (inner), Outer, Round and Cover.
--   core/graph.c         Graph: transitive_reduction and topological_order.
--   core/tarjan.c        Tarjan: find_dcycles.
--   algo/ares.c          Ares, over DynOrder: Visit for ares_visit (one function for each of its four
--                        cases), Run for the removal, the step and run_ares_flat.
--   algo/ceres.c         Ceres, over DynOrder: the dense context, Classify (the descent), LeftPart (wolp),
--                        Run (the blocks and the run); Base/Counting has the sort that it uses twice.
--   algo/hermes.c        Hermes, over ConceptOrder: Clarify (the classes of equal sets by an open hash table, and
--                        the domination), Hasse (the concepts and the edges), Run (the entry points).
--   core/bitset.h        Bitset: dense sets of 64-bit words.
--   core/dynorder.c      DynOrder: the mutable order with its covers (Edges), reduced extents, traversals
--                        (Traverse), counting sort and flat array (Serial).
--   algo/lincbo.c        LinCbo: the linear closure (lincbo_lin_closure_rc is drain over scan over fire),
--                        the recursion (lincbo_step), and Output for the JSON text, with StrBuf/Arrays.
--   algo/lincbo_pruning.c  LincboPruning: the state and the pruning stacks, Closure (through the extent),
--                        Linear (lin_closure_rc), Engine (the loop on the frames), Output; Extent, Intent,
--                        Ways and Agree compare its closure with that of core/closure.c, Lifo treats the
--                        LIFO stack, Array the flat array.
-- Base holds the shared tests, lists, loops and bits.
--
-- Conventions. A C array is a list, an index a natural number, `for (i = 0; i < n; i++)` is
-- `for_to n`. What is NULL is `none`. A function that writes through a pointer returns the new
-- value. Reads out of bounds, undefined in C, give an empty set or 0; the invariants (IsContext,
-- IsGraph, IsOrder, IsNested, IsWords) say which indices are in bounds. Non-negative `int`s are
-- natural numbers: the model does not wrap them at 2 ^ 31; 64-bit words keep their wrap-around.
--
-- CRoaring is third-party code: its bitmaps are a type with the operations that the code calls and
-- the laws that its documentation gives, the record Roaring, which every module takes as an
-- instance. Roaring/Model satisfies it by lists of indices, and the examples run on that.
--
-- Fuel. get_smallest_containing and add_extent take fuel. One more than the cardinality of the
-- generator's extent is enough, since each step goes to a properly smaller extent; build_lattice
-- gives the number of objects plus one. The loop of sb_ensure takes as many rounds as the size
-- needed. lincbo_lin_closure_rc takes one round more than there are attributes, since each round
-- settles one; lincbo_step ends with as much, since each call has a larger set. A traversal of
-- DynOrder takes one round for each mark, and so does the descent of Ceres, whose counters are as
-- many as the objects and attributes and two more; its other loops take one round for each entry
-- of the table, the object list or the vector that they treat. A probe of the hash table of Hermes takes
-- as many rounds as there are slots. Graph, Tarjan, Ares, co_compute_intents, Hermes/Hasse and the loops of
-- LincboPruning take fuel as an argument. The lowest bit of a word is found in at most 64 rounds.
--
-- Not modelled: the release of memory, failing allocations other than that of the flat array,
-- timing, the parameter sel_flags of dyn_maximal_of, which the code does not read, the capacities of
-- the scratch buffers of DynOrder and of the stacks of LincboPruning; the other
-- algorithms of algo/: Pluton (pluton.c), the lattice CbO (latticecbo.c) and the D-basis (dbasis.c);
-- the JNI bridge.
mod Base
pub mod Roaring
pub mod Context
pub mod Closure
pub mod Bitset
pub mod DGraph
pub mod ConceptOrder
pub mod Implication
pub mod StrBuf
pub mod AddExtent
pub mod LinCbo
pub mod DynOrder
pub mod Clarification
pub mod Graph
pub mod Tarjan
pub mod BitsetRoaring
pub mod Ceres
pub mod Hermes
pub mod LincboPruning
pub mod Ares
