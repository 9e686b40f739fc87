-- ===== src/Lib.antt =====
-- The Python programs of AegirSDR: the flow graph that shows the streams of the receiver, and the
-- tools behind the documentation and the bindings of the GNU Radio module.
--
-- The parts, and the files here that model them:
-- * gnuradio/gnuradiozmq.py, the window that subscribes to the receiver and shows five streams:
--   Flowgraph. The constructor is `init`, with `sink_calls` for one of the five sinks;
--   `closeEvent`, `set_samp_rate`, `main` and `sig_handler` keep their names. A function answers
--   the calls that it makes to Qt and GNU Radio, in their order; what Qt answers is an argument.
-- * gr-Aegir/docs/doxygen/other/doxypy.py, the filter that turns docstrings into comments for
--   doxygen: Doxypy. Patterns holds the regular expressions, Machine the table, the state and the
--   callbacks of `FSM` and `Doxypy`, Filter the loops `parse`, `parseFile` and `parseLine`. A
--   callback that reads a missing group is `none`. Regex models the expressions of the table by
--   derivatives and relates them to the language that they stand for.
-- * gr-Aegir/docs/doxygen/doxyxml/generated/indexsuper.py and index.py, the objects of an index of
--   doxygen: Doxyxml/Dom is the tree of the parsed file, Doxyxml/Quote the quotes, Doxyxml/Index the
--   three classes with `build` and the search, Doxyxml/Index/Export their `export`, and
--   Doxyxml/Index/Literal their `exportLiteral`.
-- * gr-Aegir/docs/doxygen/doxyxml/base.py and doxyindex.py, which find documentation by its name:
--   Doxyxml/Description holds text.py and what reads descriptions and parameters. Doxyxml/Base is
--   the search, over an interface `Objects` that says what the name and the
--   members of an object are; Doxyxml/DoxyIndex fills it with the classes of doxyindex.py. The files of
--   a directory are an argument, with what their reading raises, and so is the table of references that
--   `from_refid` looks into. An object is parsed whenever it is asked; the source keeps the answer, and
--   raises an exception of `_parse` only the first time.
-- * gr-Aegir/docs/doxygen/doxyxml/generated/compoundsuper.py and compound.py, the objects of one file of
--   doxygen: Doxyxml/Compound. The methods of the 78 classes are copies of one template, which is
--   Doxyxml/Compound/Build; Doxyxml/Compound/Schemas says for each class what its copy fills in.
--   Doxyxml/Compound/Object holds the objects, Doxyxml/Compound/Text what text.py sees of them, and
--   Doxyxml/Compound/Read what doxyindex.py reads; Doxyxml/Compound/Find is the searches of
--   compound.py, and Doxyxml/Compound/Total is about the exceptions of the builders.
-- * gr-Aegir/python/Aegir/bindings/header_utils.py, which reads the parameters of a binding file:
--   HeaderUtils; and bind_oot_file.py beside it, which calls the binding generator: BindOot.
-- * gr-Aegir/docs/doxygen/update_pydoc.py, which makes docstrings of these objects: Pydoc, with
--   `get_docstrings_dict` in Pydoc/Scrape. Pydoc/Substitute is `sub_docstring_in_pydoc_h`, which writes
--   them into header files; what it does with a key that has characters with a meaning in regular
--   expressions is an argument. Pydoc/Template holds the templates of Python's `re` that it goes through.
-- Common holds lists, tests and Python's text operations; a text is its list of code points.
--
-- All loops are structural recursion, so no fuel is needed. Not modelled: the C++ receiver and
-- block; the debug traces and command lines; the exports of compoundsuper.py, which nothing calls.
pub mod Common
pub mod Regex
pub mod Doxypy
pub mod Doxyxml
pub mod HeaderUtils
pub mod Flowgraph
pub mod Pydoc
pub mod BindOot
